-- ===== src/Process/Events.antt =====
-- The window events of a process in task/process.c.
use peach_os64bit_module_two.Common.{
  ℕ, zero, suc, ◌+◌, ◌-◌, ◌^◌, ◌<◌, ◌≤◌, ◌≡◌, refl, ap, true, arith, List, [], ◌∷◌, ◌++◌, length,
  ltb,
}
use peach_os64bit_module_two.Status.{Result, ok}
use peach_os64bit_module_two.Process.{WindowEvents, push_window_event, pop_window_event}

abbrev pub repeated : {A : Type 0} → ℕ → A → List A
repeated zero x = []
repeated (suc n) x = x ∷ repeated n x

module _ {E : Type 0} where
  -- Events that are pushed one after the other.
  abbrev pub push_all : WindowEvents E → List E → WindowEvents E
  push_all w [] = w
  push_all w (e ∷ es) = push_all (push_window_event w e) es

  -- The results of some pops.
  abbrev pub pops : ℕ → WindowEvents E → List (Result E)
  pops zero w = []
  pops (suc n) w = let (r, w') = pop_window_event w in r ∷ pops n w'

  push_keeps :
      (w : WindowEvents E) (e : E)
      → w.index ≡ 0
      → w.total_unpopped + 1 < 2 ^ 64
      → ((push_window_event w e).index ≡ 0)
        × ((push_window_event w e).total_unpopped ≡ w.total_unpopped + 1)
        × ((push_window_event w e).slots 0 ≡ e)
  unfolding push_window_event
  push_keeps w e zero_index bound = (zero_index, ground (arith, bound), ground (arith, zero_index))

  pushed_last :
      (w : WindowEvents E) (es : List E) (e : E)
      → w.index ≡ 0
      → w.total_unpopped + length es + 1 < 2 ^ 64
      → let w' = push_all w (es ++ (e ∷ [])) in
        (w'.slots 0 ≡ e) × (w'.total_unpopped ≡ w.total_unpopped + length es + 1)
  pushed_last w [] e zero_index bound =
      let (index, total, slot) = push_keeps w e zero_index (omega (arith, bound)) in
      (slot, omega (arith, total))
  pushed_last w (x ∷ es) e zero_index bound =
      let (index, total, slot) = push_keeps w x zero_index (omega (arith, bound)) in
      let (slot', total') =
        pushed_last (push_window_event w x) es e index (omega (arith, bound, total)) in
      (slot', omega (arith, total', total))

  pops_lem :
      (n : ℕ) (w : WindowEvents E) (e : E)
      → w.slots 0 ≡ e
      → n ≤ w.total_unpopped
      → pops n w ≡ repeated n (ok e)
  unfolding pop_window_event
  pops_lem zero w e slot enough = refl
  pops_lem (suc n) w e slot enough =
      let some_left : ltb 0 w.total_unpopped ≡ true = ground (arith, enough) in
      rw (pop_window_event, some_left, slot)
        (ap (λ r. ok e ∷ r)
          (pops_lem n (record w { total_unpopped = w.total_unpopped - 1 }) e slot
            (omega (arith, enough))))

  -- Where the index of the events is 0, as it always is, and no event waits, then after some events
  -- are pushed each pop, as often as there are events, returns the last of them.
  pub pops-push_all :
      (w : WindowEvents E) (es : List E) (e : E) (n : ℕ)
      → w.index ≡ 0
      → w.total_unpopped ≡ 0
      → length es + 1 < 2 ^ 64
      → n ≤ length es + 1
      → pops n (push_all w (es ++ (e ∷ []))) ≡ repeated n (ok e)
  pops-push_all w es e n zero_index empty bound some_events =
      let (slot, total) = pushed_last w es e zero_index (omega (arith, empty, bound)) in
      pops_lem n (push_all w (es ++ (e ∷ []))) e slot (omega (arith, some_events, total))
