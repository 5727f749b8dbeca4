-- ===== src/Chunker/Tests.antt =====
-- The chunker at concrete inputs.
use aithena.Base.{◌≡◌, refl, List, [], ◌∷◌, All, arith}
use aithena.Base.Int.{pos}
use aithena.Base.Text.{Text, codes, is_space, split, join}
use aithena.Chunker.{ends_sentence, sentence_aware_ranges, ok, chunk_text, chunk_text_with_pages}
use aithena.Chunker.Cover.{Tiles, sentence_aware_ranges-Tiles}
use aithena.Chunker.Cuts.{CutWell, sentence_aware_ranges-CutWell}
use aithena.Chunker.Pages.{
  Returns, Ordered, texts, chunk_text-eq-pages, chunk_text_with_pages-Ordered,
}

-- Seven words; the second and the fifth close sentences.
abbrev seven : List Text
seven =
    codes "One"
    ∷ codes "two."
    ∷ codes "Three"
    ∷ codes "four"
    ∷ codes "five!"
    ∷ codes "six"
    ∷ codes "seven"
    ∷ []

seven_ranges : sentence_aware_ranges seven 3 1 ≡ (0, 2) ∷ (2, 5) ∷ (5, 7) ∷ []
unfolding sentence_aware_ranges ends_sentence
seven_ranges = refl

no_sentences :
    sentence_aware_ranges (codes "a" ∷ codes "b" ∷ codes "c" ∷ []) 2 1 ≡ (0, 2) ∷ (1, 3) ∷ []
unfolding sentence_aware_ranges ends_sentence
no_sentences = refl

sample :
    chunk_text (codes " a b.  c d e. ") (pos 3) (pos 1) ≡ ok (codes "a b." ∷ codes "c d e." ∷ [])
unfolding chunk_text split is_space ends_sentence join
sample = refl

paged :
    chunk_text_with_pages ((1, codes "a b.") ∷ (2, codes "c d e.") ∷ []) (pos 4) (pos 1)
    ≡ ok ((codes "a b.", 1, 1) ∷ (codes "c d e.", 2, 2) ∷ [])
unfolding chunk_text_with_pages is_space ends_sentence join
paged = refl

sentence_aware_ranges-Tiles_example : Tiles 7 3 1 0 (sentence_aware_ranges seven 3 1)
sentence_aware_ranges-Tiles_example =
    sentence_aware_ranges-Tiles seven 3 1 (omega arith) (omega arith)

sentence_aware_ranges-CutWell_example : All (CutWell seven 3) (sentence_aware_ranges seven 3 1)
unfolding ends_sentence
sentence_aware_ranges-CutWell_example = sentence_aware_ranges-CutWell seven 3 1 2 refl (omega arith)

chunk_text-eq-pages_example :
    texts (chunk_text_with_pages ((4, codes "a b. c") ∷ []) (pos 2) (pos 0))
    ≡ chunk_text (codes "a b. c") (pos 2) (pos 0)
chunk_text-eq-pages_example = chunk_text-eq-pages (codes "a b. c") 4 (pos 2) (pos 0)

chunk_text_with_pages-Ordered_example :
    Returns
      (chunk_text_with_pages ((1, codes "a b.") ∷ (2, codes "c d e.") ∷ []) (pos 4) (pos 1))
      (All Ordered)
chunk_text_with_pages-Ordered_example =
    chunk_text_with_pages-Ordered ((1, codes "a b.") ∷ (2, codes "c d e.") ∷ []) 4 1 (omega arith)
      (omega arith)
