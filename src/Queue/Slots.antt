-- ===== src/Queue/Slots.antt =====
-- The slice of pointers, read and written where the index is known to be in range.
use kube_service_exporter.Base.{
  ℕ, zero, suc, ◌-◌, ◌<◌, ◌≡◌, refl, some, List, [], ◌∷◌, ◌++◌, arith, ◌==◌, if◌then◌else◌, length,
  get_elem?, length-append,
}
use kube_service_exporter.Go.Run.{ok}
use kube_service_exporter.Queue.Heap.{set, at, but_last}

-- `l[i]`
abbrev pub ptr : List ℕ → ℕ → ℕ
ptr [] i = 0
ptr (x ∷ l) zero = x
ptr (x ∷ l) (suc i) = ptr l i

-- `l` behind `l[i] = a`
abbrev pub put : {A : Type 0} → List A → ℕ → A → List A
put [] i a = []
put (x ∷ l) zero a = a ∷ l
put (x ∷ l) (suc i) a = x ∷ put l i a

pub at-ptr : (l : List ℕ) (i : ℕ) → i < length l → at l i ≡ ok (ptr l i)
at-ptr [] i h = absurd (omega arith)
at-ptr (x ∷ l) zero h = refl
at-ptr (x ∷ l) (suc i) h = at-ptr l i (omega arith)

module _ {A : Type 0} where
  pub set-put : (l : List A) (i : ℕ) (a : A) → i < length l → set l i a ≡ ok (put l i a)
  set-put [] i a h = absurd (omega arith)
  set-put (x ∷ l) zero a h = refl
  set-put (x ∷ l) (suc i) a h = rw (set-put l i a (omega arith)) refl

  pub length-put : (l : List A) (i : ℕ) (a : A) → length (put l i a) ≡ length l
  length-put [] i a = refl
  length-put (x ∷ l) zero a = refl
  length-put (x ∷ l) (suc i) a = omega (arith, length-put l i a)

  pub get_elem?-put :
      (l : List A) (i j : ℕ) (a : A)
      → i < length l
      → get_elem? (put l i a) j ≡ (if i == j then some a else get_elem? l j)
  get_elem?-put [] i j a h = absurd (omega arith)
  get_elem?-put (x ∷ l) zero zero a h = refl
  get_elem?-put (x ∷ l) zero (suc j) a h = ground arith
  get_elem?-put (x ∷ l) (suc i) zero a h = ground arith
  get_elem?-put (x ∷ l) (suc i) (suc j) a h = ground (arith, get_elem?-put l i j a)

pub ptr-put :
    (l : List ℕ) (i j a : ℕ) → i < length l → ptr (put l i a) j ≡ (if i == j then a else ptr l j)
ptr-put [] i j a h = absurd (omega arith)
ptr-put (x ∷ l) zero zero a h = refl
ptr-put (x ∷ l) zero (suc j) a h = ground arith
ptr-put (x ∷ l) (suc i) zero a h = ground arith
ptr-put (x ∷ l) (suc i) (suc j) a h = ground (arith, ptr-put l i j a)

pub ptr-append : (l m : List ℕ) (i : ℕ) → i < length l → ptr (l ++ m) i ≡ ptr l i
ptr-append [] m i h = absurd (omega arith)
ptr-append (x ∷ l) m zero h = refl
ptr-append (x ∷ l) m (suc i) h = ptr-append l m i (omega arith)

pub ptr-append_end : (l : List ℕ) (p : ℕ) → ptr (l ++ p ∷ []) (length l) ≡ p
ptr-append_end [] p = refl
ptr-append_end (x ∷ l) p = ptr-append_end l p

module _ {A : Type 0} where
  pub length-append_end : (l : List A) (a : A) → length (l ++ a ∷ []) ≡ suc (length l)
  length-append_end l a = omega (arith, length-append l (a ∷ []))

  pub get_elem?-append_end :
      (l : List A) (a : A) (i : ℕ)
      → get_elem? (l ++ a ∷ []) i ≡ (if i == length l then some a else get_elem? l i)
  get_elem?-append_end [] a zero = refl
  get_elem?-append_end [] a (suc i) = ground arith
  get_elem?-append_end (x ∷ l) a zero = ground arith
  get_elem?-append_end (x ∷ l) a (suc i) = ground (arith, get_elem?-append_end l a i)

pub length-but_last : (l : List ℕ) → length (but_last l) ≡ length l - 1
length-but_last [] = omega arith
length-but_last (x ∷ []) = omega arith
length-but_last (x ∷ y ∷ l) = omega (arith, length-but_last (y ∷ l))

pub ptr-but_last : (l : List ℕ) (i : ℕ) → suc i < length l → ptr (but_last l) i ≡ ptr l i
ptr-but_last [] i h = absurd (omega arith)
ptr-but_last (x ∷ []) i h = absurd (omega arith)
ptr-but_last (x ∷ y ∷ l) zero h = refl
ptr-but_last (x ∷ y ∷ l) (suc i) h = ptr-but_last (y ∷ l) i (omega arith)

-- two entries change places
abbrev pub exchange : List ℕ → ℕ → ℕ → List ℕ
exchange l i j = put (put l i (ptr l j)) j (ptr l i)

-- the place that an entry comes from
abbrev pub turn : ℕ → ℕ → ℕ → ℕ
turn i j c = if j == c then i else if i == c then j else c

pub length-exchange : (l : List ℕ) (i j : ℕ) → length (exchange l i j) ≡ length l
length-exchange l i j =
    omega (arith, length-put (put l i (ptr l j)) j (ptr l i), length-put l i (ptr l j))

pub ptr-exchange :
    (l : List ℕ) (i j c : ℕ)
    → i < length l
    → j < length l
    → ptr (exchange l i j) c ≡ ptr l (turn i j c)
ptr-exchange l i j c hi hj =
    rw (ptr-put (put l i (ptr l j)) j c (ptr l i) (omega (arith, length-put l i (ptr l j))))
      (ground (arith, ptr-put l i c (ptr l j)))
