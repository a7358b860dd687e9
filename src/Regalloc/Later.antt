-- ===== src/Regalloc/Later.antt =====
-- src/x86/regalloc_x86.h: the first user behind a statement, as `find_spillable` looks for it.
use bbae.Common.{
  ℕ, ap, ◌∙◌, ◌++◌, All, lt→ltb, ◌≤◌, ◌<◌, ◌≡◌, refl, inl, inr, false, List, [], ◌∷◌, some, arith,
  Bool-cases, ltb,
}
use bbae.Regalloc.{next_use}

-- The first user behind the statement of number `now`, in the order of the list of users, has the
-- number `m`.
pub record IsFirstLater (num : ℕ → ℕ) (now : ℕ) (edges : List ℕ) (m : ℕ) : Type 0 where
  pub before : List ℕ
  pub user : ℕ
  pub behind : List ℕ
  pub whole : edges ≡ before ++ user ∷ behind
  pub early : All (λ (e : ℕ). num e ≤ now) before
  pub number : num user ≡ m
  pub later : now < m

pub next_use-IsFirstLater :
    (num : ℕ → ℕ) (now m : ℕ) (edges : List ℕ)
    → next_use num now edges ≡ some m
    → IsFirstLater num now edges m
unfolding next_use
next_use-IsFirstLater num now m [] e = cc
next_use-IsFirstLater num now m (x ∷ edges) e = elim (Bool-cases (ltb now (num x))) [
  | inl later ↦ record {
    before = [];
    user = x;
    behind = edges;
    whole = refl;
    early = tt;
    number = ground arith;
    later = ground arith;
  }
  | inr not_later ↦
      let rest = next_use-IsFirstLater num now m edges (rw not_later at e) in
      record {
        before = x ∷ rest.before;
        user = rest.user;
        behind = rest.behind;
        whole = ap (λ (l : List ℕ). x ∷ l) rest.whole;
        early = (ground arith, rest.early);
        number = rest.number;
        later = rest.later;
      }
]

next_use-append :
    (num : ℕ → ℕ) (now : ℕ) (before : List ℕ) (user : ℕ) (behind : List ℕ)
    → All (λ (e : ℕ). num e ≤ now) before
    → now < num user
    → next_use num now (before ++ user ∷ behind) ≡ some (num user)
unfolding next_use
next_use-append num now [] user behind early later = rw (lt→ltb now (num user) later) refl
next_use-append num now (x ∷ before) user behind early later =
    let not_later : ltb now (num x) ≡ false = ground (arith, early.0) in
    rw not_later (next_use-append num now before user behind early.1 later)

pub IsFirstLater-next_use :
    (num : ℕ → ℕ) (now m : ℕ) (edges : List ℕ)
    → IsFirstLater num now edges m
    → next_use num now edges ≡ some m
IsFirstLater-next_use num now m edges f =
    ap (next_use num now) f.whole
    ∙ next_use-append num now f.before f.user f.behind f.early (omega (arith, f.number, f.later))
    ∙ ap some f.number
