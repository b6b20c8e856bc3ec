-- ===== src/Target/Sort.antt =====
-- sort.Strings: texts in lexicographic order. The order is total, so any sort gives this list.
use kube_service_exporter.Base.{
  Bool, true, false, ◌&&◌, List, [], ◌∷◌, ltb, ◌==◌, if◌then◌else◌, Text, text_eq,
}

text_leb : Text → Text → Bool
text_leb [] t = true
text_leb (a ∷ s) [] = false
text_leb (a ∷ s) (b ∷ t) = let rest = text_leb s t in if a == b then rest else ltb a b

insert : Text → List Text → List Text
insert s [] = s ∷ []
insert s (t ∷ ts) = let rest = insert s ts in if text_leb s t then s ∷ t ∷ ts else t ∷ rest

unfoldable pub sort_texts : List Text → List Text
unfolding insert text_leb
sort_texts [] = []
sort_texts (s ∷ ss) = insert s (sort_texts ss)

-- reflect.DeepEqual on slices of strings
unfoldable pub texts_eq : List Text → List Text → Bool
unfolding text_eq
texts_eq [] [] = true
texts_eq (s ∷ ss) (t ∷ ts) = text_eq s t && texts_eq ss ts
texts_eq [] (t ∷ ts) = false
texts_eq (s ∷ ss) [] = false
