-- ===== src/Optimize/Unreached.antt =====
-- src/bbae_optimization.h: the first loop of `optimization_empty_block_removal` takes out exactly the
-- blocks behind the first that no other block jumps to.
use mathlib.Core.List.{append_assoc, append-nil}
use bbae.Common.{
  ℕ, zero, suc, ◌-◌, ◌≤◌, ◌<◌, ◌≡◌, refl, sym, ap, ◌∙◌, Bool, true, false, not, ◌||◌, List, [], ◌∷◌,
  ◌++◌, some, ◌==◌, ltb, if◌then◌else◌, length, take, drop, take_all, get_elem?, arith,
}
use bbae.Ir.{Heap}
use bbae.Optimize.{erase_at}
use bbae.Optimize.Blocks.{
  is_address, only_itself, is_unreached, erase_unreached, unreached_loop, remove_unreached,
}

-- A statement among these that does not stand in the block.
abbrev pub from_another : Heap → ℕ → List ℕ → Bool
from_another h block [] = false
from_another h block (s ∷ edges) =
    not (is_address (h.statements s).block block) || from_another h block edges

abbrev pub entered : Heap → List ℕ → List ℕ
entered h [] = []
entered h (b ∷ blocks) =
    let rest = entered h blocks in if from_another h b (h.blocks b).edges_in then b ∷ rest else rest

unreached_edges :
    (h : Heap) (block : ℕ) (edges : List ℕ)
    → only_itself h block edges ≡ not (from_another h block edges)
unfolding only_itself
unreached_edges h block [] = refl
unreached_edges h block (s ∷ edges) = ground (arith, unreached_edges h block edges)

is_unreached_lem :
    (h : Heap) (block : ℕ)
    → is_unreached h block ≡ not (from_another h block (h.blocks block).edges_in)
is_unreached_lem h block = by_edges (h.blocks block).edges_in
  where
    by_edges :
        (edges : List ℕ)
        → (if length edges == 0 then true else only_itself h block edges)
          ≡ not (from_another h block edges)
    by_edges [] = refl
    by_edges (s ∷ edges) = ground (arith, unreached_edges h block (s ∷ edges))

entered-append : (h : Heap) (xs ys : List ℕ) → entered h (xs ++ ys) ≡ entered h xs ++ entered h ys
entered-append h [] ys = refl
entered-append h (b ∷ xs) ys = ground (arith, entered-append h xs ys)

-- The place `k` of a list.
split_place :
    (xs : List ℕ) (k : ℕ)
    → k < length xs
    → (x : ℕ) × (get_elem? xs k ≡ some x)
      × (take (suc k) xs ≡ take k xs ++ x ∷ [])
      × (drop k xs ≡ x ∷ drop (suc k) xs)
split_place [] k lt = absurd (omega arith)
split_place (x ∷ xs) zero lt = (x, refl, refl, refl)
split_place (x ∷ xs) (suc k) lt =
    let (y, at, front, back) = split_place xs k (omega arith) in
    (y, at, ap (λ l. x ∷ l) front, back)

take-erase_at : (xs : List ℕ) (k : ℕ) → take k (erase_at xs k) ≡ take k xs
take-erase_at [] zero = refl
take-erase_at [] (suc k) = refl
take-erase_at (x ∷ xs) zero = refl
take-erase_at (x ∷ xs) (suc k) = ap (λ l. x ∷ l) (take-erase_at xs k)

drop-erase_at : (xs : List ℕ) (k : ℕ) → drop k (erase_at xs k) ≡ drop (suc k) xs
drop-erase_at [] zero = refl
drop-erase_at [] (suc k) = refl
drop-erase_at (x ∷ xs) zero = refl
drop-erase_at (x ∷ xs) (suc k) = drop-erase_at xs k

length-erase_at : (xs : List ℕ) (k : ℕ) → k < length xs → k ≤ length (erase_at xs k)
length-erase_at [] k lt = absurd (omega arith)
length-erase_at (x ∷ xs) zero lt = omega arith
length-erase_at (x ∷ xs) (suc k) lt = omega (arith, length-erase_at xs k (omega arith))

not_less : (n : ℕ) → ltb (suc (suc n)) 2 ≡ false
not_less n = ground arith

less_one : (n : ℕ) → suc (suc n) - 1 ≡ suc n
less_one n = omega arith

drop_all : (xs : List ℕ) → drop (length xs) xs ≡ []
drop_all [] = refl
drop_all (x ∷ xs) = drop_all xs

module _ (h : Heap) (b : ℕ) where
  whole_list : (xs : List ℕ) → entered h (take (length xs) xs) ++ drop (length xs) xs ≡ entered h xs
  whole_list xs =
      ap (λ l. entered h l ++ drop (length xs) xs) (take_all (length xs) xs (omega arith))
      ∙ ap (λ l. entered h xs ++ l) (drop_all xs)
      ∙ append-nil (entered h xs)

  entered_one : ℕ → List ℕ → List ℕ
  entered_one x rest = if from_another h x (h.blocks x).edges_in then x ∷ rest else rest

  -- What stays of the front, with the block at its end.
  front_lem :
      (xs front rest : List ℕ) (x : ℕ)
      → xs ≡ front ++ x ∷ []
      → entered h xs ++ rest ≡ entered h front ++ entered_one x rest
  unfolding entered_one
  front_lem xs front rest x e =
      ap (λ l. entered h l ++ rest) e
      ∙ ap (λ l. l ++ rest) (entered-append h front (x ∷ []))
      ∙ append_assoc (entered h front) (entered h (x ∷ [])) rest
      ∙ ap (λ l. entered h front ++ l) (one_of (from_another h x (h.blocks x).edges_in) x rest)
    where
      one_of :
          (q : Bool) (x : ℕ) (rest : List ℕ)
          → (if q then x ∷ [] else []) ++ rest ≡ (if q then x ∷ rest else rest)
      one_of true x rest = refl
      one_of false x rest = refl

  loop_step :
      (k x : ℕ) (xs : List ℕ)
      → get_elem? xs k ≡ some x
      → unreached_loop h (suc k) (b ∷ xs)
        ≡ unreached_loop h k
            (b ∷ (if from_another h x (h.blocks x).edges_in then xs else erase_at xs k))
  unfolding unreached_loop
  loop_step k x xs at =
      ap (λ o. unreached_loop h k (erase_unreached h (b ∷ xs) (suc k) o)) at
      ∙ ap (unreached_loop h k) (
          ap (λ q. if q then b ∷ erase_at xs k else b ∷ xs) (is_unreached_lem h x)
          ∙ one_of (from_another h x (h.blocks x).edges_in))
    where
      one_of :
          (q : Bool)
          → (if not q then b ∷ erase_at xs k else b ∷ xs) ≡ b ∷ (if q then xs else erase_at xs k)
      one_of true = refl
      one_of false = refl

  -- The round at the block `x`, with the loop over the blocks before it.
  round_lem :
      (q : Bool) (k x : ℕ) (xs : List ℕ)
      → from_another h x (h.blocks x).edges_in ≡ q
      → k < length xs
      → take (suc k) xs ≡ take k xs ++ x ∷ []
      → drop k xs ≡ x ∷ drop (suc k) xs
      → ((ys : List ℕ)
          → k ≤ length ys
          → unreached_loop h k (b ∷ ys) ≡ b ∷ (entered h (take k ys) ++ drop k ys))
      → unreached_loop h k (b ∷ (if q then xs else erase_at xs k))
        ≡ b ∷ (entered h (take (suc k) xs) ++ drop (suc k) xs)
  unfolding entered_one
  round_lem true k x xs e lt front back loop =
      loop xs (omega arith)
      ∙ ap (λ l. b ∷ (entered h (take k xs) ++ l)) back
      ∙ ap (λ l. b ∷ l)
          (ap (λ q. entered h (take k xs) ++ (if q then x ∷ drop (suc k) xs else drop (suc k) xs))
              (sym e)
            ∙ sym (front_lem (take (suc k) xs) (take k xs) (drop (suc k) xs) x front))
  round_lem false k x xs e lt front back loop =
      loop (erase_at xs k) (length-erase_at xs k lt)
      ∙ ap (λ l. b ∷ (entered h l ++ drop k (erase_at xs k))) (take-erase_at xs k)
      ∙ ap (λ l. b ∷ (entered h (take k xs) ++ l)) (drop-erase_at xs k)
      ∙ ap (λ l. b ∷ l)
          (ap (λ q. entered h (take k xs) ++ (if q then x ∷ drop (suc k) xs else drop (suc k) xs))
              (sym e)
            ∙ sym (front_lem (take (suc k) xs) (take k xs) (drop (suc k) xs) x front))

  loop_lem :
      (k : ℕ) (xs : List ℕ)
      → k ≤ length xs
      → unreached_loop h k (b ∷ xs) ≡ b ∷ (entered h (take k xs) ++ drop k xs)
  unfolding unreached_loop
  loop_lem zero xs le = refl
  loop_lem (suc k) xs le =
      let lt : k < length xs = omega arith in
      let (x, at, front, back) = split_place xs k lt in
      loop_step k x xs at
      ∙ round_lem (from_another h x (h.blocks x).edges_in) k x xs refl lt front back (loop_lem k)

  -- The first block stays, and of the others exactly those, in their order, to which a statement of
  -- another block jumps.
  pub remove_unreached-entered :
      (blocks : List ℕ) → remove_unreached h (b ∷ blocks) ≡ b ∷ entered h blocks
  unfolding remove_unreached
  remove_unreached-entered [] = refl
  remove_unreached-entered (x ∷ blocks) = rw (not_less (length blocks)) (
      ap (λ n. unreached_loop h n (b ∷ x ∷ blocks)) (less_one (length blocks))
      ∙ loop_lem (suc (length blocks)) (x ∷ blocks) (omega arith)
      ∙ ap (λ l. b ∷ l) (whole_list (x ∷ blocks)))
