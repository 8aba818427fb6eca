-- ===== src/Stdlib/Lines.antt =====
-- `std::getline`, called until it fails: the strings between delimiters. What follows the last
-- delimiter is a string of its own only if it is not empty.
use arcraven_ugv_core.Common.{
  ℕ, suc, ◌+◌, ◌≤◌, ◌≡◌, ◌≢◌, refl, ap, ◌∙◌, Bool, true, false, ◌&&◌, List, [], ◌∷◌, ◌++◌, ◌==◌,
  if◌then◌else◌, ==_refl, ==_of_ne, Bool-cases, inl, inr, Bytes, All, length, All-append, arith,
}

unfoldable pub prepend : ℕ → List Bytes → List Bytes
prepend c [] = (c ∷ []) ∷ []
prepend c (l ∷ ls) = (c ∷ l) ∷ ls

unfoldable pub getlines : ℕ → Bytes → List Bytes
unfolding prepend
getlines d [] = []
getlines d (c ∷ cs) = if c == d then [] ∷ getlines d cs else prepend c (getlines d cs)

-- `s.rfind(prefix, 0) == 0`
unfoldable pub starts_with : Bytes → Bytes → Bool
starts_with s [] = true
starts_with [] (p ∷ ps) = false
starts_with (c ∷ s) (p ∷ ps) = c == p && starts_with s ps

abbrev pub Without : ℕ → Bytes → Type 0
Without d = All (λ c. c ≢ d)

-- A field that a delimiter closes is the first string.
pub getlines-closed :
    (d : ℕ) (field rest : Bytes)
    → Without d field
    → getlines d (field ++ (d ∷ rest)) ≡ field ∷ getlines d rest
unfolding getlines
getlines-closed d [] rest h = rw (==_refl d)
getlines-closed d (c ∷ field) rest (hc, h) = rw (==_of_ne c d hc, getlines-closed d field rest h)

-- The last field is dropped if it is empty.
pub getlines-last :
    (d c : ℕ) (field : Bytes) → Without d (c ∷ field) → getlines d (c ∷ field) ≡ (c ∷ field) ∷ []
unfolding getlines
getlines-last d c [] (hc, h) = rw (==_of_ne c d hc)
getlines-last d c (b ∷ field) (hc, h) = rw (==_of_ne c d hc, getlines-last d b field h)

-- A string that is not empty yields at least one.
getlines-cons :
    (d c : ℕ) (cs : Bytes) → (l : Bytes) × (ls : List Bytes) × (getlines d (c ∷ cs) ≡ l ∷ ls)
unfolding getlines
getlines-cons d c cs = elim (Bool-cases (c == d)) [
  | inl hit ↦ ([], getlines d cs, rw hit)
  | inr miss ↦ rw miss (prepended (getlines d cs))
]
  where
    prepended : (ls : List Bytes) → (l : Bytes) × (ls' : List Bytes) × (prepend c ls ≡ l ∷ ls')
    prepended [] = (c ∷ [], [], refl)
    prepended (l ∷ ls) = (c ∷ l, ls, refl)

cons_of_append :
    (d : ℕ) (xs : Bytes) → (l : Bytes) × (ls : List Bytes) × (getlines d (xs ++ (d ∷ [])) ≡ l ∷ ls)
cons_of_append d [] = getlines-cons d d []
cons_of_append d (c ∷ xs) = getlines-cons d c (xs ++ (d ∷ []))

-- After a delimiter the reading starts afresh.
pub getlines-append :
    (d : ℕ) (xs ys : Bytes)
    → getlines d (xs ++ (d ∷ ys)) ≡ getlines d (xs ++ (d ∷ [])) ++ getlines d ys
unfolding getlines
getlines-append d [] ys = rw (==_refl d)
getlines-append d (c ∷ xs) ys =
    let (l, ls, e) = cons_of_append d xs in
    elim (Bool-cases (c == d)) [
      | inl hit ↦ rw (hit, getlines-append d xs ys)
      | inr miss ↦ rw (miss, getlines-append d xs ys, e)
    ]

-- What the offset of a reader grows by over these strings: their bytes, and one more for each.
unfoldable pub consumed : List Bytes → ℕ
consumed [] = 0
consumed (l ∷ ls) = length l + 1 + consumed ls

-- 1 if the text ends in the middle of a line, else 0.
unfoldable pub torn : ℕ → Bytes → ℕ
torn d [] = 0
torn d (c ∷ []) = if c == d then 0 else 1
torn d (c ∷ b ∷ xs) = torn d (b ∷ xs)

getlines-hit : (d c : ℕ) (cs : Bytes) → (c == d) ≡ true → getlines d (c ∷ cs) ≡ [] ∷ getlines d cs
unfolding getlines
getlines-hit d c cs h = rw h

getlines-miss :
    (d c : ℕ) (cs : Bytes) → (c == d) ≡ false → getlines d (c ∷ cs) ≡ prepend c (getlines d cs)
unfolding getlines
getlines-miss d c cs h = rw h

consumed-cons : (l : Bytes) (ls : List Bytes) → consumed (l ∷ ls) ≡ length l + 1 + consumed ls
unfolding consumed
consumed-cons l ls = refl

consumed-prepend :
    (c : ℕ) {ls : List Bytes} (l : Bytes) (rest : List Bytes)
    → ls ≡ l ∷ rest
    → consumed (prepend c ls) ≡ suc (consumed ls)
unfolding consumed prepend
consumed-prepend c l rest e = rw e (omega arith)

pub consumed-getlines : (d : ℕ) (xs : Bytes) → consumed (getlines d xs) ≡ length xs + torn d xs
consumed-getlines d [] = unfold consumed getlines torn in refl
consumed-getlines d (c ∷ []) = unfold consumed getlines torn in ground arith
consumed-getlines d (c ∷ b ∷ xs) =
    let (l, ls, e) = getlines-cons d b xs in
    let ih = consumed-getlines d (b ∷ xs) in
    let same : torn d (c ∷ b ∷ xs) ≡ torn d (b ∷ xs) = unfold torn in refl in
    elim (Bool-cases (c == d)) [
      | inl hit ↦
          ap consumed (getlines-hit d c (b ∷ xs) hit)
          ∙ consumed-cons [] (getlines d (b ∷ xs))
          ∙ omega (arith, ih, same)
      | inr miss ↦
          ap consumed (getlines-miss d c (b ∷ xs) miss)
          ∙ consumed-prepend c l ls e
          ∙ omega (arith, ih, same)
    ]

pub torn-nil : (d : ℕ) → torn d [] ≡ 0
unfolding torn
torn-nil d = refl

pub torn-append : (d : ℕ) (xs ys : Bytes) → torn d (xs ++ (d ∷ ys)) ≡ torn d ys
unfolding torn
torn-append d [] [] = rw (==_refl d)
torn-append d [] (y ∷ ys) = refl
torn-append d (c ∷ []) [] = rw (==_refl d)
torn-append d (c ∷ []) (y ∷ ys) = refl
torn-append d (c ∷ b ∷ xs) ys = torn-append d (b ∷ xs) ys

pub torn-le : (d : ℕ) (xs : Bytes) → torn d xs ≤ 1
unfolding torn
torn-le d [] = omega arith
torn-le d (c ∷ []) = ground arith
torn-le d (c ∷ b ∷ xs) = torn-le d (b ∷ xs)

pub torn-Without : (d c : ℕ) (xs : Bytes) → Without d (c ∷ xs) → torn d (c ∷ xs) ≡ 1
unfolding torn
torn-Without d c [] (hc, h) = rw (==_of_ne c d hc)
torn-Without d c (b ∷ xs) (hc, h) = torn-Without d b xs h

-- Fields, each closed by a delimiter, and then the last.
unfoldable pub joined : ℕ → List Bytes → Bytes → Bytes
joined d [] last = last
joined d (f ∷ fs) last = f ++ (d ∷ joined d fs last)

pub getlines-joined :
    (d : ℕ) (fs : List Bytes) (last : Bytes)
    → All (Without d) fs
    → getlines d (joined d fs last) ≡ fs ++ getlines d last
unfolding joined
getlines-joined d [] last h = refl
getlines-joined d (f ∷ fs) last (hf, h) =
    getlines-closed d f (joined d fs last) hf ∙ ap (◌∷◌ f) (getlines-joined d fs last h)

pub All-joined {κ} :
    (P : ℕ → Type κ) (d : ℕ) (fs : List Bytes) (last : Bytes)
    → P d
    → All (All P) fs
    → All P last
    → All P (joined d fs last)
unfolding joined
All-joined P d [] last hd h hl = hl
All-joined P d (f ∷ fs) last hd (hf, h) hl =
    All-append P f (d ∷ joined d fs last) hf (hd, All-joined P d fs last hd h hl)
