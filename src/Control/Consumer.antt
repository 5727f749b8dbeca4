-- ===== src/Control/Consumer.antt =====
-- The consumer loop of `consume` (src/document-indexer/document_indexer/__main__.py), which starts
-- and stops the RabbitMQ consumer as the control object says.
--
-- The loop holds no lock, so each read of `control.is_paused` is a value of its own. `consumers` is
-- the number of consumers that the broker has registered for this channel.
use aithena.Base.{
  ℕ, ◌+◌, ◌-◌, ◌≡◌, refl, Bool, true, false, not, ◌&&◌, ◌||◌, inl, inr, Bool-cases, List, [], ◌∷◌,
  arith, All, if◌then◌else◌,
}

-- The local variables of `consume`; `tagged` says that `consumer_tag` is not None.
pub record Consumer : Type 0 where
  pub consumers : ℕ
  pub tagged : Bool
  pub was_paused : Bool

-- _start_consuming
pub start_consuming : Consumer → Consumer
start_consuming c = record c { consumers = c.consumers + 1; tagged = true }

-- _stop_consuming; the flag says whether `basic_cancel` succeeds (its exceptions are swallowed)
pub stop_consuming : Bool → Consumer → Consumer
stop_consuming cancels c =
    if c.tagged
    then record c { consumers = if cancels then c.consumers - 1 else c.consumers; tagged = false }
    else c

-- The part before the loop, with the two reads of `is_paused`.
pub enter : Bool → Bool → Consumer
unfolding start_consuming
enter first second =
    let idle : Consumer = record { consumers = 0; tagged = false; was_paused = second } in
    if not first then start_consuming idle else idle

-- What one iteration of the loop reads: `is_shutting_down`, `is_paused` twice, whether a cancel
-- would succeed, and whether `process_data_events` raises ConnectionClosedByBroker.
pub record Tick : Type 0 where
  pub stopping : Bool
  pub first : Bool
  pub second : Bool
  pub cancels : Bool
  pub closed : Bool

-- the pause/resume transitions of one iteration
pub transition : Tick → Consumer → Consumer
unfolding start_consuming stop_consuming
transition t c =
    if t.first && not c.was_paused
    then record (stop_consuming t.cancels c) { was_paused = true }
    else if not t.second && c.was_paused
    then record (start_consuming c) { was_paused = false }
    else c

-- The loop over the iterations so far, and whether it has ended; the `finally` stops the consumer.
pub consume_loop : List Tick → Consumer → Consumer × Bool
unfolding transition stop_consuming
consume_loop [] c = (c, false)
consume_loop (t ∷ ts) c =
    let rest = consume_loop ts (transition t c) in
    if t.stopping
    then (stop_consuming t.cancels c, true)
    else if t.closed
    then (stop_consuming t.cancels (transition t c), true)
    else rest

-- One consumer while it believes itself not paused, none while it believes itself paused.
pub record IsConsistent (c : Consumer) : Type 0 where
  pub tag_follows : c.tagged ≡ not c.was_paused
  pub count_follows : c.consumers ≡ (if c.was_paused then 0 else 1)

enter-IsConsistent : (p : Bool) → IsConsistent (enter p p)
unfolding enter
enter-IsConsistent true = record { tag_follows = refl; count_follows = refl }
enter-IsConsistent false = record { tag_follows = refl; count_follows = refl }

transition-IsConsistent :
    (t : Tick) (c : Consumer) → t.cancels ≡ true → IsConsistent c → IsConsistent (transition t c)
unfolding transition
transition-IsConsistent t c ok h = ground arith

-- The reads of one iteration agree, and a cancel succeeds.
abbrev pub IsCalm : Tick → Type 0
IsCalm t = (t.first ≡ t.second) × (t.cancels ≡ true)

was_paused-transition :
    (t : Tick) (c : Consumer) → t.first ≡ t.second → (transition t c).was_paused ≡ t.second
unfolding transition
was_paused-transition t c same = ground arith

-- What the last read of `is_paused` gave, from the reads of the iterations and the one before them.
abbrev pub last_read : Bool → List Tick → Bool
last_read p [] = p
last_read p (t ∷ ts) = last_read t.second ts

stopped_count :
    (t : Tick) (c : Consumer)
    → t.cancels ≡ true
    → IsConsistent c
    → (stop_consuming t.cancels c).consumers ≡ 0
unfolding stop_consuming
stopped_count t c ok h = ground arith

loop_count :
    (p : Bool) (ts : List Tick) (c : Consumer)
    → c.was_paused ≡ p
    → All IsCalm ts
    → IsConsistent c
    → (consume_loop ts c).0.consumers ≡ (if (consume_loop ts c).1 || last_read p ts then 0 else 1)
unfolding consume_loop
loop_count p [] c e calm h = ground arith
loop_count p (t ∷ ts) c e calm h =
    let h' = transition-IsConsistent t c calm.0.1 h in
    elim (Bool-cases t.stopping) [
      | inl stop ↦ rw stop (stopped_count t c calm.0.1 h)
      | inr on ↦ elim (Bool-cases t.closed) [
        | inl shut ↦ rw (on, shut) (stopped_count t (transition t c) calm.0.1 h')
        | inr alive ↦
            rw (on, alive)
              (loop_count t.second ts (transition t c) (was_paused-transition t c calm.0.0) calm.1
                h')
      ]
    ]

was_paused-enter : (p : Bool) → (enter p p).was_paused ≡ p
unfolding enter
was_paused-enter true = refl
was_paused-enter false = refl

-- If the two reads of `is_paused` before the loop agree, and in each iteration so do its two reads,
-- and cancels succeed, then at every moment the broker has exactly one consumer, or none if the loop
-- has ended or the last read said paused: there is never a second consumer, and none is left behind.
pub consume_loop-follows :
    (p : Bool) (ts : List Tick)
    → All IsCalm ts
    → (consume_loop ts (enter p p)).0.consumers
      ≡ (if (consume_loop ts (enter p p)).1 || last_read p ts then 0 else 1)
consume_loop-follows p ts calm =
    loop_count p ts (enter p p) (was_paused-enter p) calm (enter-IsConsistent p)

-- An iteration that goes on and finds the indexer paused.
abbrev pub IsPausedTick : Tick → Type 0
IsPausedTick t = (t.stopping ≡ false) × (t.closed ≡ false) × (t.first ≡ true) × (t.second ≡ true)

race_keeps :
    (ts : List Tick) (c : Consumer)
    → c.was_paused ≡ true
    → All IsPausedTick ts
    → consume_loop ts c ≡ (c, false)
unfolding consume_loop transition
race_keeps [] c h calm = refl
race_keeps (t ∷ ts) c h calm = ground (arith, race_keeps ts c h calm.1)

-- If a pause arrives between the two reads before the loop (the first says not paused, the second
-- paused), then through any number of iterations that all find the indexer paused the consumer that
-- was started stays registered.
pub consume_loop-race :
    (ts : List Tick) → All IsPausedTick ts → (consume_loop ts (enter false true)).0.consumers ≡ 1
unfolding enter
consume_loop-race ts calm = rw (race_keeps ts (enter false true) refl calm)
