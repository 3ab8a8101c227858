-- ===== src/Sequence/Soundness.antt =====
-- The invariant of racing minters.
use holon_bridge_python.Prelude.{
  ℕ, suc, ◌+◌, ◌≤◌, ◌<◌, String, List, [], ◌∷◌, Bool, true, false, none, some, ◌≡◌, ◌≢◌, inl, inr,
  sym, ap, ◌∙◌, ◌==◌, eq_iff, if◌then◌else◌, find, count, In, arith, Bool-cases,
}
use holon_bridge_python.Sequence.{Counter, guard_holds}
use holon_bridge_python.Sequence.Race.{Claim, Race, by_token, drop_token, Step, reads}

-- No two claims have one number.
abbrev pub Distinct : List Claim → Type 0
Distinct [] = Unit
Distinct (c ∷ cs) = ((x : Claim) → In x cs → x.number ≢ c.number) × Distinct cs

-- How often the token's attempt starts.
abbrev is_read_of : String → Step → Bool
is_read_of t (reads u) = u == t
is_read_of t _ = false

abbrev pub starts : String → List Step → ℕ
starts t = count (is_read_of t)

-- Where the token's attempt is.
abbrev places : String → Race → ℕ
places t r =
    count (by_token t) r.readers + count (by_token t) r.updated + count (by_token t) r.minted

abbrev pub Falling : List Claim → Type 0
Falling [] = Unit
Falling (c ∷ cs) = ((x : Claim) → In x cs → x.number < c.number) × Falling cs

-- The counter holds the latest update that took effect.
abbrev pub Latest : List Claim → Counter → Type 0
Latest [] c = (c.value ≡ none) × (c.token ≡ none)
Latest (f ∷ fs) c = (c.value ≡ some f.number) × (c.token ≡ some f.token)

pub record IsSound (left : List Step) (r : Race) : Type 0 where
  pub latest : Latest r.fired r.counter
  pub falling : Falling r.fired
  pub minted_fired : (x : Claim) → In x r.minted → In x r.fired
  pub distinct : Distinct r.minted
  pub budget : (t : String) → places t r + starts t left ≤ 1

pub drop_count :
    (t u : String) (l : List Claim) (c : Claim)
    → find (by_token t) l ≡ some c
    → (c.token ≡ t)
      × (count (by_token u) l ≡ count (by_token u) (drop_token t l) + (if t == u then 1 else 0))
drop_count t u [] c h = cc
drop_count t u (x ∷ l) c h = elim (Bool-cases (x.token == t)) [
  | inl e ↦
      let s : x ≡ c = ground arith in
      let same = (eq_iff x.token t).0 e in
      (ap (λ (k : Claim). k.token) (sym s) ∙ same, ground (arith, same))
  | inr e ↦
      let rest : find (by_token t) l ≡ some c = ground arith in
      let (a, b) = drop_count t u l c rest in (a, ground arith)
]

pub absent :
    (t : String) (l : List Claim) (x : Claim) → count (by_token t) l ≡ 0 → In x l → x.token ≢ t
absent t (c ∷ l) x h (inl e) = λ same. ground (arith, e, eq_iff c.token t)
absent t (c ∷ l) x h (inr m) = absent t l x (ground arith) m
absent t [] x h m = absurd m

guarded :
    (n current : ℕ) (c : Counter) → c.value ≡ some n → guard_holds current c ≡ true → n ≡ current
guarded n current c e h = ground arith

-- The guard holds only for the value that the latest update left.
pub fired_below :
    (fired : List Claim) (c : Counter) (current : ℕ)
    → Latest fired c
    → Falling fired
    → guard_holds current c ≡ true
    → (x : Claim) → In x fired
    → x.number < suc current
fired_below (f ∷ fs) c current l fall h x (inl e) =
    let n = guarded f.number current c l.0 h in
    let s = ap (λ (k : Claim). k.number) e in omega arith
fired_below (f ∷ fs) c current l fall h x (inr m) =
    let n = guarded f.number current c l.0 h in let s = fall.0 x m in omega arith
fired_below [] c current l fall h x m = absurd m
