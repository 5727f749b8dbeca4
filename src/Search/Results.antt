-- ===== src/Search/Results.antt =====
-- What a result of src/solr-search/search_service.py carries: collect_highlights, thumbnail_url and
-- normalize_book.
use aithena.Base.{
  ℕ, ◌≡◌, refl, ◌∙◌, ap, inl, inr, Bool, true, false, ◌||◌, Option, none, some, List, [], ◌∷◌, ◌++◌,
  String, str_eq, eq_iff, arith, if◌then◌else◌, any, Bool-cases,
}
use aithena.Base.Text.{Text, codes, is_prefix}

-- the inner loop of collect_highlights: a snippet that is there is passed over
unfoldable pub add_snippets : List String → List String → List String
add_snippets snippets [] = snippets
add_snippets snippets (snippet ∷ more) =
    let skip = add_snippets snippets more in
    let put = add_snippets (snippets ++ snippet ∷ []) more in
    if any (str_eq snippet) snippets then skip else put

-- collect_highlights, from the snippets of the fields `content` and `_text_` of the document
unfoldable pub collect_highlights : List String → List String → List String
unfolding add_snippets
collect_highlights content text = add_snippets (add_snippets [] content) text

-- No element is listed twice.
abbrev pub Distinct : List String → Type 0
Distinct [] = Unit
Distinct (s ∷ rest) = (any (str_eq s) rest ≡ false) × Distinct rest

any-snoc :
    (q : String → Bool) (xs : List String) (x : String) → any q (xs ++ x ∷ []) ≡ (any q xs || q x)
unfolding any
any-snoc q [] x = ground arith
any-snoc q (y ∷ xs) x = ground (arith, any-snoc q xs x)

Distinct-snoc :
    (xs : List String) (x : String)
    → any (str_eq x) xs ≡ false
    → Distinct xs
    → Distinct (xs ++ x ∷ [])
unfolding any
Distinct-snoc [] x free h = (refl, tt)
Distinct-snoc (y ∷ xs) x free h = (
  ground (arith, any-snoc (str_eq y) xs x, eq_iff x y, eq_iff y x),
  Distinct-snoc xs x (ground arith) h.1,
)

add_snippets-lem :
    (snippets more : List String)
    → Distinct snippets
    → Distinct (add_snippets snippets more)
      × ((s : String)
          → any (str_eq s) (add_snippets snippets more)
            ≡ (any (str_eq s) snippets || any (str_eq s) more))
unfolding add_snippets any
add_snippets-lem snippets [] h = (h, λ s. ground arith)
add_snippets-lem snippets (x ∷ more) h = elim (Bool-cases (any (str_eq x) snippets)) [
  | inl there ↦
      let rest = add_snippets-lem snippets more h in
      rw there (rest.0, λ s. rest.1 s ∙ present s x snippets (any (str_eq s) more) there)
  | inr free ↦
      let rest = add_snippets-lem (snippets ++ x ∷ []) more (Distinct-snoc snippets x free h) in
      rw free (rest.0, λ s. rest.1 s ∙ ground (arith, any-snoc (str_eq s) snippets x))
]
  where
    present :
        (s x : String) (snippets : List String) (b : Bool)
        → any (str_eq x) snippets ≡ true
        → (any (str_eq s) snippets || b) ≡ (any (str_eq s) snippets || (str_eq s x || b))
    present s x snippets b there = elim (Bool-cases (str_eq s x)) [
      | inl e ↦
          let same = ap (λ (t : String). any (str_eq t) snippets) ((eq_iff s x).0 e) ∙ there in
          rw same refl
      | inr e ↦ rw e refl
    ]

-- The highlights of a document are distinct, and they are exactly the snippets of its two fields.
pub collect_highlights-Distinct :
    (content text : List String)
    → Distinct (collect_highlights content text)
      × ((s : String)
          → any (str_eq s) (collect_highlights content text)
            ≡ (any (str_eq s) content || any (str_eq s) text))
unfolding collect_highlights any
collect_highlights-Distinct content text =
    let one = add_snippets-lem [] content tt in
    let two = add_snippets-lem (add_snippets [] content) text one.0 in
    (two.0, λ s. two.1 s ∙ ap (λ (b : Bool). b || any (str_eq s) text) (one.1 s))

-- thumbnail_url, from the field if there is one
unfoldable pub thumbnail_url : Option Text → Option Text
thumbnail_url none = none
thumbnail_url (some []) = none
thumbnail_url (some (c ∷ raw)) =
    if is_prefix (codes "/") (c ∷ raw)
      || is_prefix (codes "http://") (c ∷ raw)
      || is_prefix (codes "https://") (c ∷ raw)
    then some (c ∷ raw)
    else some (codes "/thumbnails/" ++ (c ∷ raw))

-- A Solr document: the fields that normalize_book reads.
pub record Document : Type 0 where
  pub id : Option String
  pub title_s : Option Text
  pub author_s : Option Text
  pub year_i : Option ℕ
  pub category_s : Option Text
  pub language_detected_s : Option Text
  pub language_s : Option Text
  pub series_s : Option Text
  pub file_path_s : Option Text
  pub folder_path_s : Option Text
  pub page_count_i : Option ℕ
  pub file_size_l : Option ℕ
  pub thumbnail_url_s : Option Text
  pub page_start_i : Option ℕ
  pub page_end_i : Option ℕ
  pub chunk_text_t : Option Text
  pub parent_id_s : Option String

-- What normalize_book gives; `score`, which is passed on, is left out.
pub record NormalizedBook : Type 0 where
  pub id : String
  pub title : Text
  pub author : Text
  pub year : Option ℕ
  pub category : Option Text
  pub language : Option Text
  pub series : Option Text
  pub file_path : Option Text
  pub folder_path : Option Text
  pub page_count : Option ℕ
  pub file_size : Option ℕ
  pub pages : Option (ℕ × ℕ)
  pub is_chunk : Bool
  pub chunk_text : Option Text
  pub page_start : Option ℕ
  pub page_end : Option ℕ
  pub highlights : List String
  pub document_url : Option Text
  pub thumbnail : Option Text
  pub parent_id : Option String

-- `value or other` on texts, where the empty text counts as none
abbrev or_text : Option Text → Text → Text
or_text none other = other
or_text (some []) other = other
or_text (some (c ∷ t)) other = c ∷ t

abbrev or_text_some : Option Text → Option Text → Option Text
or_text_some none other = other
or_text_some (some []) other = other
or_text_some (some (c ∷ t)) other = some (c ∷ t)

abbrev get_or_empty : Option Text → Text
get_or_empty none = []
get_or_empty (some t) = t

abbrev id_or_empty : Option String → String
id_or_empty none = ""
id_or_empty (some id) = id

-- `pages`: a missing end is the other one
abbrev page_pair : Option ℕ → Option ℕ → Option (ℕ × ℕ)
page_pair none none = none
page_pair none (some last) = some (last, last)
page_pair (some first) none = some (first, first)
page_pair (some first) (some last) = some (first, last)

abbrev has_value : Option String → Bool
has_value none = false
has_value (some s) = true

-- normalize_book, with `Path.stem` and the snippets of each document
unfoldable pub normalize_book :
    (Text → Text) → Document → (String → List String × List String) → Option Text → NormalizedBook
unfolding collect_highlights thumbnail_url
normalize_book stem document highlighting document_url =
    let id = id_or_empty document.id in
    let is_chunk = has_value document.parent_id_s in
    record {
      id = id;
      title = or_text document.title_s (stem (get_or_empty document.file_path_s));
      author = or_text document.author_s (codes "Unknown");
      year = document.year_i;
      category = document.category_s;
      language = or_text_some document.language_detected_s document.language_s;
      series = document.series_s;
      file_path = document.file_path_s;
      folder_path = document.folder_path_s;
      page_count = document.page_count_i;
      file_size = document.file_size_l;
      pages = page_pair document.page_start_i document.page_end_i;
      is_chunk = is_chunk;
      chunk_text = if is_chunk then document.chunk_text_t else none;
      page_start = document.page_start_i;
      page_end = document.page_end_i;
      highlights = collect_highlights (highlighting id).0 (highlighting id).1;
      document_url = document_url;
      thumbnail = thumbnail_url document.thumbnail_url_s;
      parent_id = document.parent_id_s;
    }
