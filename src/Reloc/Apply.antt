-- ===== src/Reloc/Apply.antt =====
-- src/relocation_helpers.h: all relocations of one log.
use bbae.Common.{
  ℕ, ◌+◌, ◌≤◌, ◌<◌, ◌^◌, ◌≡◌, ◌⊎◌, refl, inl, inr, List, [], ◌∷◌, ◌++◌, Run, ok, fault, assertion,
  Bytes, length, arith, ◌>>=◌, ◌∙◌, Bool-cases, true, false, Bool, All, get_elem?,
}
use mathlib.Core.List.{append-nil, append_assoc}
use bbae.Common.{Fault, if◌then◌else◌, Run-cases, ==_iff}
use bbae.Reloc.{
  NameUsageInfo, is_dummy, fits_signed, distance, apply_relocation, apply_relocations,
  reloc_illegal_dummy_value,
}
use bbae.Reloc.Patch.{Reaches, Patched, HasFieldSize, Rewrites, limit_of, apply_relocation-Rewrites}

-- The field of a usage lies inside a code of `n` bytes.
abbrev pub IsInside : ℕ → NameUsageInfo → Type 0
IsInside n info = HasFieldSize info.size × (info.loc + info.size ≤ n)

-- The fields of two usages do not overlap.
abbrev pub AreDisjoint : NameUsageInfo → NameUsageInfo → Type 0
AreDisjoint a b = (a.loc + a.size ≤ b.loc) ⊎ (b.loc + b.size ≤ a.loc)

abbrev pub PairwiseDisjoint : List NameUsageInfo → Type 0
PairwiseDisjoint [] = Unit
PairwiseDisjoint (u ∷ us) = All (AreDisjoint u) us × PairwiseDisjoint us

abbrev pub names_dummy : Run ℕ → Bool
names_dummy (ok target) = is_dummy target
names_dummy (fault e) = false

module _ (lookup : Bytes → Run ℕ) where
  -- A usage is served: its name was looked up, and its field reaches the target that was found,
  -- unless that is the dummy.
  abbrev pub IsServed : Bytes → NameUsageInfo → Type 0
  IsServed code info =
      (target : ℕ) × (lookup info.name ≡ ok target)
      × ((target ≡ reloc_illegal_dummy_value) ⊎ Reaches code info.loc info.size target)

  -- The usages whose name has no target, in the order of the log.
  abbrev pub unresolved : List NameUsageInfo → List NameUsageInfo
  unresolved [] = []
  unresolved (info ∷ us) =
      let rest = unresolved us in if names_dummy (lookup info.name) then info ∷ rest else rest

  abbrev pub LooksUpWords : Type 0
  LooksUpWords = (name : Bytes) (target : ℕ) → lookup name ≡ ok target → target < 2 ^ 64

  -- A byte that no usage's field covers.
  abbrev pub IsUncovered : List NameUsageInfo → ℕ → Type 0
  IsUncovered us i = All (λ u. (i < u.loc) ⊎ (u.loc + u.size ≤ i)) us

  -- What a run over the usages has done to the code and the log of unused relocations.
  pub record Applied (us : List NameUsageInfo) (code code' : Bytes) : Type 0 where
    pub served : All (IsServed code') us
    pub same_length : length code' ≡ length code
    pub untouched : (i : ℕ) → IsUncovered us i → get_elem? code' i ≡ get_elem? code i

is_dummy→eq : (target : ℕ) → is_dummy target ≡ true → target ≡ reloc_illegal_dummy_value
unfolding is_dummy
is_dummy→eq target h = (==_iff _ _).0 h

-- A field whose bytes stay what they are still reaches its target.
Reaches-frame :
    (code code' : Bytes) (loc size target : ℕ)
    → ((i : ℕ) → loc ≤ i → i < loc + size → get_elem? code' i ≡ get_elem? code i)
    → Reaches code loc size target
    → Reaches code' loc size target
Reaches-frame code code' loc size target same r = record {
  field = r.field;
  field_size = r.field_size;
  stands = λ i j e l. same i (omega arith) (omega (arith, r.field_size)) ∙ r.stands i j e l;
  lands = r.lands;
}

-- A byte of one field is covered by no field that is disjoint from it.
module _ (lookup : Bytes → Run ℕ) where
  IsUncovered-in :
      (us : List NameUsageInfo) (info : NameUsageInfo) (i : ℕ)
      → All (AreDisjoint info) us
      → info.loc ≤ i
      → i < info.loc + info.size
      → IsUncovered lookup us i
  IsUncovered-in [] info i d lo hi = tt
  IsUncovered-in (u ∷ us) info i d lo hi = (ground arith, IsUncovered-in us info i d.1 lo hi)

  Applied-unused :
      (info : NameUsageInfo) (us : List NameUsageInfo) (code code' : Bytes) (target : ℕ)
      → lookup info.name ≡ ok target
      → target ≡ reloc_illegal_dummy_value
      → Applied lookup us code code'
      → Applied lookup (info ∷ us) code code'
  Applied-unused info us code code' target found dummy a = record {
    served = ((target, found, inl dummy), a.served);
    same_length = a.same_length;
    untouched = λ i u. a.untouched i u.1;
  }

  Applied-Patched :
      (info : NameUsageInfo) (us : List NameUsageInfo) (code code₁ code' : Bytes) (target : ℕ)
      → lookup info.name ≡ ok target
      → All (AreDisjoint info) us
      → Patched info.loc info.size target code code₁
      → Applied lookup us code₁ code'
      → Applied lookup (info ∷ us) code code'
  Applied-Patched info us code code₁ code' target found apart p a = record {
    served = (
      (
        target,
        found,
        inr (
            Reaches-frame code₁ code' info.loc info.size target
              (λ i lo hi. a.untouched i (IsUncovered-in us info i apart lo hi)) p.reaches),
      ),
      a.served,
    );
    same_length = a.same_length ∙ p.same_length;
    untouched = λ i u. a.untouched i u.1 ∙ p.outside i u.0;
  }

  -- Why a run stops: a lookup stops, or a target is too far from its field.
  abbrev pub StopsAt : Fault → NameUsageInfo → Type 0
  StopsAt e info =
      (lookup info.name ≡ fault e)
      ⊎ ((target : ℕ) × (lookup info.name ≡ ok target)
          × (fits_signed (limit_of info.size) (distance target (info.loc + info.size)) ≡ false)
          × (e ≡ assertion))

  abbrev pub Any : (NameUsageInfo → Type 0) → List NameUsageInfo → Type 0
  Any P [] = ⊥
  Any P (u ∷ us) = P u ⊎ Any P us

  abbrev pub Outcome :
      List NameUsageInfo → Bytes → List NameUsageInfo → Run (Bytes × List NameUsageInfo) → Type 0
  Outcome us code unused (ok (code', unused')) =
      Applied lookup us code code' × (unused' ≡ unused ++ unresolved lookup us)
  Outcome us code unused (fault e) = Any (StopsAt e) us

  run_nil :
      (code : Bytes) (unused : List NameUsageInfo)
      → Outcome [] code unused (ok (code, unused))
      → Outcome [] code unused (apply_relocations lookup [] code unused)
  unfolding apply_relocations
  run_nil code unused h = h

  module _ (info : NameUsageInfo) (us : List NameUsageInfo) (code : Bytes)
      (unused : List NameUsageInfo) where
    run_stops :
        (e : Fault)
        → lookup info.name ≡ fault e
        → apply_relocations lookup (info ∷ us) code unused ≡ fault e
    unfolding apply_relocations
    run_stops e stops = rw stops

    run_unused :
        (target : ℕ)
        → lookup info.name ≡ ok target
        → is_dummy target ≡ true
        → apply_relocations lookup (info ∷ us) code unused
          ≡ apply_relocations lookup us code (unused ++ info ∷ [])
    unfolding apply_relocations
    run_unused target found dummy = rw (found, dummy)

    run_patched :
        (target : ℕ)
        → lookup info.name ≡ ok target
        → is_dummy target ≡ false
        → apply_relocations lookup (info ∷ us) code unused ≡ (
            apply_relocation code info target >>= λ code'. apply_relocations lookup us code' unused)
    unfolding apply_relocations
    run_patched target found real = rw (found, real)

    unused_Outcome :
        (target : ℕ)
        → lookup info.name ≡ ok target
        → is_dummy target ≡ true
        → (r : Run (Bytes × List NameUsageInfo)) → Outcome us code (unused ++ info ∷ []) r
        → Outcome (info ∷ us) code unused r
    unused_Outcome target found dummy (ok (code', unused')) (a, log) = (
      Applied-unused info us code code' target found (is_dummy→eq target dummy) a,
      rw (found, dummy) (log ∙ rw append_assoc),
    )
    unused_Outcome target found dummy (fault e) h = inr h

    patched_Outcome :
        (target : ℕ)
        → lookup info.name ≡ ok target
        → is_dummy target ≡ false
        → All (AreDisjoint info) us
        → (r : Run Bytes) → Rewrites info.loc info.size target code r
        → ((code₁ : Bytes)
            → length code₁ ≡ length code
            → Outcome us code₁ unused (apply_relocations lookup us code₁ unused))
        → Outcome (info ∷ us) code unused (r >>= λ code'. apply_relocations lookup us code' unused)
    patched_Outcome target found real apart (fault e) (far, stop) rest =
        inl (inr (target, found, far, stop))
    patched_Outcome target found real apart (ok code₁) (near, p) rest =
        go (apply_relocations lookup us code₁ unused) (rest code₁ p.same_length)
      where
        go :
            (r : Run (Bytes × List NameUsageInfo))
            → Outcome us code₁ unused r
            → Outcome (info ∷ us) code unused r
        go (ok (code', unused')) (a, log) =
            (Applied-Patched info us code code₁ code' target found apart p a, rw (found, real) log)
        go (fault e) h = inr h

  -- Applying the relocations of a log whose fields lie inside the code and do not overlap: if the
  -- run ends, every field reaches the target of its name or is logged as unused when its target is
  -- the dummy, in order, and every byte outside the fields and the length are kept; if it stops,
  -- then at a usage whose lookup stops or whose target does not fit its field.
  pub apply_relocations-Outcome :
      (us : List NameUsageInfo) (code : Bytes) (unused : List NameUsageInfo)
      → LooksUpWords lookup
      → All (IsInside (length code)) us
      → PairwiseDisjoint us
      → length code < 2 ^ 63
      → Outcome us code unused (apply_relocations lookup us code unused)
  apply_relocations-Outcome [] code unused words inside apart small =
      run_nil code unused
        (record { served = tt; same_length = refl; untouched = λ i u. refl }, rw append-nil)
  apply_relocations-Outcome (info ∷ us) code unused words inside apart small =
      elim (Run-cases (lookup info.name)) [
        | inr (e, stops) ↦ rw (run_stops info us code unused e stops) (inl (inl stops))
        | inl (target, found) ↦ elim (Bool-cases (is_dummy target)) [
          | inl dummy ↦ rw (run_unused info us code unused target found dummy) (
              unused_Outcome info us code unused target found dummy
                (apply_relocations lookup us code (unused ++ info ∷ []))
                (apply_relocations-Outcome us code (unused ++ info ∷ []) words inside.1 apart.1
                  small))
          | inr real ↦ rw (run_patched info us code unused target found real) (
              patched_Outcome info us code unused target found real apart.0
                (apply_relocation code info target)
                (apply_relocation-Rewrites code info target inside.0.0
                  (words info.name target found) inside.0.1 small)
                (λ code₁ same.
                  apply_relocations-Outcome us code₁ unused words (rw same inside.1) apart.1
                    (rw same small)))
        ]
      ]
