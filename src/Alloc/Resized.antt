-- ===== src/Alloc/Resized.antt =====
-- src/memory.h: `zero_realloc` keeps the list in order, with the block at its new address.
use bbae.Common.{
  ℕ, ◌-◌, ◌≡◌, ◌≢◌, refl, sym, ap, ◌∙◌, inl, inr, true, false, List, none, some, ok, ◌==◌, ==_iff,
  if◌then◌else◌, Bool-cases, some_not_none, true_not_false,
}
use bbae.Ir.{update}
use bbae.Ir.Update.{update_self, update_ne}
use bbae.Ir.Substitute.{mem}
use bbae.Alloc.{Allocation, Memory, Allocs, relink, change_in, zero_grown, moved_head}
use bbae.Alloc.Chain.{IsSized, IsChain, data_in, in_segment}
use bbae.Alloc.Renamed.{
  next_of, prev_of, back_link, on_list, forward_link, next_ne, prev_ne, renamed_all, IsRenamed,
  IsSegment-renamed, IsOnce-renamed, off-renamed, new_among, not_equal,
}
use bbae.Alloc.Relink.{
  on_block_live, data-linked_at, linked_none, is_at, on_block, change_linked-ok, set_next, set_prev,
  relink_run, moved, with_size, with_next, final, size_elsewhere, final_elsewhere, next_new,
  final_new, is_at-some, at_itself, adjusted, adjusted_lem, moved_other, moved_old,
}

module _ (s : Allocs) (addrs : List ℕ) (chain : IsChain s addrs) (old new : ℕ) (b c g : Allocation)
    (here : s.memory old ≡ some b) (same_next : c.next ≡ b.next) (same_prev : c.prev ≡ b.prev)
    (size : IsSized c) (fresh : new ≢ old → s.memory new ≡ none) where
  old_next : next_of s.memory old ≡ c.next
  old_next = ap (λ o. next_of (λ y. o) old) here ∙ sym same_next

  old_prev : prev_of s.memory old ≡ c.prev
  old_prev = ap (λ o. prev_of (λ y. o) old) here ∙ sym same_prev

  live_ne : (x : ℕ) (bx : Allocation) → s.memory x ≡ some bx → (x == old) ≡ false → x ≢ new
  live_ne x bx at ne same =
      some_not_none (sym at ∙ ap s.memory same ∙ fresh (λ e. not_equal x old ne (same ∙ e)))

  not_before : is_at c.prev new ≡ false
  not_before = elim (Bool-cases (is_at c.prev new)) [
    | inr off ↦ off
    | inl at ↦
        let back = old_prev ∙ is_at-some c.prev new at in
        elim (Bool-cases (new == old)) [
          | inl same ↦ absurd (prev_ne s addrs chain old (back ∙ ap some ((==_iff new old).0 same)))
          | inr ne ↦ absurd (
              some_not_none (
                sym (forward_link s addrs chain old new back)
                ∙ ap (λ o. next_of (λ y. o) new) (fresh (not_equal new old ne))))
        ]
  ]

  not_behind : is_at c.next new ≡ false
  not_behind = elim (Bool-cases (is_at c.next new)) [
    | inr off ↦ off
    | inl at ↦
        let ahead = old_next ∙ is_at-some c.next new at in
        elim (Bool-cases (new == old)) [
          | inl same ↦
              absurd (next_ne s addrs chain old (ahead ∙ ap some ((==_iff new old).0 same)))
          | inr ne ↦ absurd (
              some_not_none (
                sym (back_link s addrs chain old new ahead)
                ∙ ap (λ o. prev_of (λ y. o) new) (fresh (not_equal new old ne))))
        ]
  ]

  next_moved :
      (x : ℕ) (bx : Allocation)
      → s.memory x ≡ some bx
      → (if is_at c.prev x then some new else bx.next) ≡ moved_head bx.next old new
  next_moved x bx at = elim (Bool-cases (is_at c.prev x)) [
    | inl before ↦
        let ahead = forward_link s addrs chain old x (old_prev ∙ is_at-some c.prev x before) in
        let next = sym (ap (λ o. next_of (λ y. o) x) at) ∙ ahead in
        rw before (sym (ap (λ o. moved_head o old new) next ∙ moved_old old new))
    | inr off ↦ rw off (
        sym (
          moved_other bx.next old new (λ e.
            let back = back_link s addrs chain x old (ap (λ o. next_of (λ y. o) x) at ∙ e) in
            true_not_false (sym (at_itself x) ∙ ap (λ o. is_at o x) (sym back ∙ old_prev) ∙ off))))
  ]

  prev_moved :
      (x : ℕ) (bx : Allocation)
      → s.memory x ≡ some bx
      → (if is_at c.next x then some new else bx.prev) ≡ moved_head bx.prev old new
  prev_moved x bx at = elim (Bool-cases (is_at c.next x)) [
    | inl behind ↦
        let back = back_link s addrs chain old x (old_next ∙ is_at-some c.next x behind) in
        let prev = sym (ap (λ o. prev_of (λ y. o) x) at) ∙ back in
        rw behind (sym (ap (λ o. moved_head o old new) prev ∙ moved_old old new))
    | inr off ↦ rw off (
        sym (
          moved_other bx.prev old new (λ e.
            let ahead = forward_link s addrs chain x old (ap (λ o. prev_of (λ y. o) x) at ∙ e) in
            true_not_false (sym (at_itself x) ∙ ap (λ o. is_at o x) (sym ahead ∙ old_next) ∙ off))))
  ]

  abbrev pub later : Memory
  later = final old new s.memory g c

  neighbour :
      (x : ℕ) (bx : Allocation)
      → s.memory x ≡ some bx
      → (x == old) ≡ false
      → later x ≡ some (adjusted new (is_at c.prev x) (is_at c.next x) bx)
  neighbour x bx at ne =
      final_elsewhere old new s.memory g c x (live_ne x bx at ne) (not_equal x old ne)
      ∙ ap
          (λ o.
            if is_at c.next x
            then on_block (set_prev new) (if is_at c.prev x then on_block (set_next new) o else o)
            else (if is_at c.prev x then on_block (set_next new) o else o))
          at
      ∙ adjusted_lem new (is_at c.prev x) (is_at c.next x) bx

  each-IsRenamed :
      (x : ℕ) (bx : Allocation) → s.memory x ≡ some bx → IsSized bx → IsRenamed old new later x bx
  each-IsRenamed x bx at sized = elim (Bool-cases (x == old)) [
    | inl same ↦
        let eq = (==_iff x old).0 same in
        let alike : bx ≡ b = cc in
        (
          c,
          rw same (final_new old new s.memory g c not_before not_behind),
          same_next
              ∙ sym (
                  moved_other b.next old new
                    (λ e. next_ne s addrs chain old (old_next ∙ same_next ∙ e)))
              ∙ ap (λ a. moved_head a.next old new) (sym alike),
          same_prev
              ∙ sym (
                  moved_other b.prev old new
                    (λ e. prev_ne s addrs chain old (old_prev ∙ same_prev ∙ e)))
              ∙ ap (λ a. moved_head a.prev old new) (sym alike),
          size,
        )
    | inr ne ↦ (
      adjusted new (is_at c.prev x) (is_at c.next x) bx,
      rw ne (neighbour x bx at ne),
      next_moved x bx at,
      prev_moved x bx at,
      sized,
    )
  ]

  size_live :
      (x : ℕ) → x ≢ new → x ≢ old → s.memory x ≢ none → with_size old new s.memory g c x ≢ none
  size_live x nn off live gone = live (sym (size_elsewhere old new s.memory g c x nn off) ∙ gone)

  -- The two neighbours are other blocks that are not freed.
  prev_live : (p : ℕ) → c.prev ≡ some p → with_size old new s.memory g c p ≢ none
  prev_live p e =
      size_live p
        (λ same.
          true_not_false
            (sym (at_itself p) ∙ ap (λ o. is_at o p) (sym e) ∙ ap (is_at c.prev) same ∙ not_before))
        (λ same. prev_ne s addrs chain old (old_prev ∙ e ∙ ap some same))
        (λ gone. some_not_none (
          sym (forward_link s addrs chain old p (old_prev ∙ e))
          ∙ ap (λ o. next_of (λ y. o) p) gone))

  next_live : (q : ℕ) → c.next ≡ some q → with_next old new s.memory g c q ≢ none
  next_live q e gone =
      on_block_live c.prev (set_next new) (with_size old new s.memory g c) q
        (size_live q
          (λ same.
            true_not_false (
              sym (at_itself q)
              ∙ ap (λ o. is_at o q) (sym e)
              ∙ ap (is_at c.next) same
              ∙ not_behind))
          (λ same. next_ne s addrs chain old (old_next ∙ e ∙ ap some same))
          (λ freed. some_not_none (
            sym (back_link s addrs chain old q (old_next ∙ e))
            ∙ ap (λ o. prev_of (λ y. o) q) freed)))
        gone

  pub relinks :
      (total : ℕ)
      → record (zero_grown total g) { size = total - 64 } ≡ c
      → relink total new (moved old new s.memory g c) ≡ ok later
  relinks total is_c =
      relink_run total new (moved old new s.memory g c) (with_size old new s.memory g c)
        (with_next old new s.memory g c) later c c
        (ap
            (change_in (moved old new s.memory g c) new
              (λ a. record (zero_grown total a) { size = total - 64 }))
            (update_self (update s.memory old none) new (some g))
          ∙ ap (λ a. ok (update (moved old new s.memory g c) new (some a))) is_c)
        (update_self (moved old new s.memory g c) new (some c))
        (change_linked-ok c.prev (set_next new) (with_size old new s.memory g c) prev_live)
        (next_new old new s.memory g c not_before)
        (change_linked-ok c.next (set_prev new) (with_next old new s.memory g c) next_live)

  stays_none : (x : ℕ) → with_size old new s.memory g c x ≡ none → later x ≡ none
  stays_none x gone =
      linked_none c.next (set_prev new) (with_next old new s.memory g c) x
        (linked_none c.prev (set_next new) (with_size old new s.memory g c) x gone)

  old_on : mem old addrs ≡ true
  old_on = on_list s addrs chain old (λ gone. some_not_none (sym here ∙ gone))

  pub data_elsewhere : (x : ℕ) → x ≢ new → x ≢ old → data_in (later x) ≡ data_in (s.memory x)
  data_elsewhere x nn off =
      data-linked_at c.next (set_prev new) (with_next old new s.memory g c) x (λ a. refl)
      ∙ data-linked_at c.prev (set_next new) (with_size old new s.memory g c) x (λ a. refl)
      ∙ ap data_in (size_elsewhere old new s.memory g c x nn off)

  pub data_new : data_in (later new) ≡ some c.bytes
  data_new = ap data_in (final_new old new s.memory g c not_before not_behind)

  abbrev pub after : Allocs
  after = record { alloc_list = moved_head s.alloc_list old new; memory = later }

  pub IsChain-later : IsChain after (renamed_all old new addrs)
  IsChain-later = record {
    linked =
        IsSegment-renamed old new s.memory later none s.alloc_list addrs each-IsRenamed
          chain.linked;
    once =
        IsOnce-renamed old new addrs
          (λ y among ne same.
            in_segment s.memory none s.alloc_list addrs y chain.linked among
              (ap s.memory same ∙ fresh (λ e. ne (same ∙ e))))
          chain.once;
    live = λ x off.
        let nn = λ (same : x ≡ new). true_not_false (
          sym (new_among old new addrs old_on)
          ∙ ap (λ y. mem y (renamed_all old new addrs)) (sym same)
          ∙ off) in
        elim (Bool-cases (x == old)) [
          | inl same ↦ stays_none x (
              update_ne (moved old new s.memory g c) new (some c) x nn
              ∙ update_ne (update s.memory old none) new (some g) x nn
              ∙ ap (update s.memory old none) ((==_iff x old).0 same)
              ∙ update_self s.memory old none)
          | inr other ↦
              let ne = not_equal x old other in
              stays_none x (
                size_elsewhere old new s.memory g c x nn ne
                ∙ chain.live x (off-renamed old new x addrs off ne))
        ];
  }
