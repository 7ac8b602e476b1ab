-- ===== src/Keyboard/Tests.antt =====
-- The theorems on the key buffer of keyboard/keyboard.c where one key waits, or none.
use peach_os64bit_module_two.Common.{
  ℕ, zero, suc, ◌+◌, ◌%◌, ◌<◌, ◌≡◌, ◌≢◌, refl, some, [], ◌∷◌, ◌==◌, if◌then◌else◌, get_or, arith,
}
use peach_os64bit_module_two.Keyboard.{Keys, backspace, push, pop}
use peach_os64bit_module_two.Keyboard.Queue.{Holds, pushed, push-Holds, Popped, pop-Popped}

abbrev key_a : ℕ
key_a = 97

abbrev one_key : Keys
one_key = record { buffer = λ i. if i == 5 then key_a else 0; tail = 6; head = 5 }

one_key-Holds : Holds one_key (key_a ∷ [])
one_key-Holds = record {
  fits = omega arith;
  head_bound = omega arith;
  tail_at = refl;
  stored = λ i lt. waiting i lt;
  keys_only = λ i lt. only i lt;
}
  where
    waiting :
        (i : ℕ) → i < 1024 → (if (5 + i) % 1024 == 5 then key_a else 0) ≡ get_or (key_a ∷ []) i 0
    waiting zero lt = refl
    waiting (suc i) lt = ground arith

    only : (i : ℕ) → i < 1 → get_or (key_a ∷ []) i 0 ≢ 0
    only zero lt = ground arith
    only (suc i) lt = absurd (omega (arith, lt))

abbrev no_keys : Keys
no_keys = record { buffer = λ i. 0; tail = 7; head = 7 }

no_keys-Holds : Holds no_keys []
no_keys-Holds = record {
  fits = omega arith;
  head_bound = omega arith;
  tail_at = refl;
  stored = λ i lt. refl;
  keys_only = λ i lt. absurd (omega (arith, lt));
}

push-Holds_example :
    (push (some one_key) 98 ≡ (some (pushed one_key 98), 98 ∷ []))
    × Holds (pushed one_key 98) (key_a ∷ 98 ∷ [])
    × Holds (backspace (pushed one_key 98)) (key_a ∷ [])
push-Holds_example = push-Holds one_key (key_a ∷ []) 98 one_key-Holds (omega arith) (ground arith)

pop-Popped_example : Popped (key_a ∷ []) (pop (some one_key))
pop-Popped_example = pop-Popped one_key (key_a ∷ []) one_key-Holds
