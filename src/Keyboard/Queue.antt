-- ===== src/Keyboard/Queue.antt =====
-- The key buffer of keyboard/keyboard.c as a queue of at most 1024 keys.
use peach_os64bit_module_two.Common.{
  ℕ, zero, suc, ◌+◌, ◌%◌, ◌^◌, ◌<◌, ◌≤◌, ◌≡◌, ◌≢◌, refl, true, false, Option, none, some, List, [],
  ◌∷◌, ◌++◌, ◌==◌, if◌then◌else◌, update, length, get_or, length-append, arith,
}
use peach_os64bit_module_two.Keyboard.{Keys, get_tail_index, backspace, push, pop}

-- The buffer has the keys `xs`, the oldest first, from its head on, and nothing else.
pub record Holds (keys : Keys) (xs : List ℕ) : Type 0 where
  pub fits : length xs ≤ 1024
  pub head_bound : keys.head < 2 ^ 32
  pub tail_at : keys.tail ≡ (keys.head + length xs) % 2 ^ 32
  pub stored : (i : ℕ) → i < 1024 → keys.buffer ((keys.head + i) % 1024) ≡ get_or xs i 0
  pub keys_only : (i : ℕ) → i < length xs → get_or xs i 0 ≢ 0

get_or-append :
    (xs : List ℕ) (c i : ℕ)
    → get_or (xs ++ (c ∷ [])) i 0 ≡ (if i == length xs then c else get_or xs i 0)
get_or-append [] c zero = ground arith
get_or-append [] c (suc i) = ground arith
get_or-append (x ∷ xs) c zero = ground arith
get_or-append (x ∷ xs) c (suc i) = ground (arith, get_or-append xs c i)

get_or-beyond : (xs : List ℕ) (i : ℕ) → length xs ≤ i → get_or xs i 0 ≡ 0
get_or-beyond [] i le = refl
get_or-beyond (x ∷ xs) zero le = absurd (omega (arith, le))
get_or-beyond (x ∷ xs) (suc i) le = get_or-beyond xs i (omega (arith, le))

-- The keys after a push.
abbrev pub pushed : Keys → ℕ → Keys
pushed keys c = record keys {
  buffer = update keys.buffer (get_tail_index keys) c;
  tail = (keys.tail + 1) % 2 ^ 32;
}

pushed-Holds :
    (keys : Keys) (xs : List ℕ) (c : ℕ)
    → Holds keys xs
    → length xs < 1024
    → c ≢ 0
    → Holds (pushed keys c) (xs ++ (c ∷ []))
unfolding get_tail_index
pushed-Holds keys xs c h room key = record {
  fits = ground (arith, length-append xs (c ∷ []), room);
  head_bound = h.head_bound;
  tail_at = ground (arith, length-append xs (c ∷ []), h.tail_at);
  stored = λ i lt. ground (arith, get_or-append xs c i, h.stored i lt, h.tail_at, room);
  keys_only =
      λ i lt. ground (arith, get_or-append xs c i, h.keys_only i, length-append xs (c ∷ []), lt);
}

backspace-Holds :
    (keys : Keys) (xs : List ℕ) (c : ℕ) → Holds keys (xs ++ (c ∷ [])) → Holds (backspace keys) xs
unfolding backspace
backspace-Holds keys xs c h = record {
  fits = ground (arith, length-append xs (c ∷ []), h.fits);
  head_bound = h.head_bound;
  tail_at = ground (arith, length-append xs (c ∷ []), h.tail_at, h.head_bound);
  stored = λ i lt. ground (
    arith,
    get_or-append xs c i,
    h.stored i lt,
    h.tail_at,
    length-append xs (c ∷ []),
    h.head_bound,
    h.fits,
    get_or-beyond xs i,
  );
  keys_only =
      λ i lt. ground (arith, get_or-append xs c i, h.keys_only i, length-append xs (c ∷ []), lt);
}

popped-Holds :
    (keys : Keys) (x : ℕ) (xs : List ℕ)
    → Holds keys (x ∷ xs)
    → Holds
        (record keys {
          buffer = update keys.buffer (keys.head % 1024) 0;
          head = (keys.head + 1) % 2 ^ 32;
        })
        xs
popped-Holds keys x xs h = record {
  fits = omega (arith, h.fits);
  head_bound = omega arith;
  tail_at = ground (arith, h.tail_at, h.head_bound);
  stored = λ i lt. ground (arith, h.stored (suc i), get_or-beyond xs i, lt, h.fits, h.head_bound);
  keys_only = λ i lt. ground (arith, h.keys_only (suc i), lt);
}

-- Where fewer than 1024 keys wait, pushing a key other than 0 puts it behind them and sends one
-- event, and a backspace then takes it away again.
pub push-Holds :
    (keys : Keys) (xs : List ℕ) (c : ℕ)
    → Holds keys xs
    → length xs < 1024
    → c ≢ 0
    → (push (some keys) c ≡ (some (pushed keys c), c ∷ []))
      × Holds (pushed keys c) (xs ++ (c ∷ []))
      × Holds (backspace (pushed keys c)) xs
unfolding push
push-Holds keys xs c h room key =
    let after = pushed-Holds keys xs c h room key in
    (ground (arith, key), after, backspace-Holds (pushed keys c) xs c after)

-- What a pop returns and leaves.
abbrev pub Popped : List ℕ → ℕ × Option Keys → Type 0
Popped xs (c, none) = ⊥
Popped [] (c, some keys) = (c ≡ 0) × Holds keys []
Popped (x ∷ xs) (c, some keys) = (c ≡ x) × Holds keys xs

-- A pop returns the key that has waited longest and leaves the others, or returns 0 and leaves none
-- where no key waits.
pub pop-Popped : (keys : Keys) (xs : List ℕ) → Holds keys xs → Popped xs (pop (some keys))
unfolding pop
pop-Popped keys [] h =
    let null : (keys.buffer (keys.head % 1024) == 0) ≡ true = ground (arith, h.stored 0) in
    rw null (refl, h)
pop-Popped keys (x ∷ xs) h =
    let front : keys.buffer (keys.head % 1024) ≡ x = ground (arith, h.stored 0) in
    let key : (keys.buffer (keys.head % 1024) == 0) ≡ false =
      ground (arith, h.keys_only 0, front) in
    rw key (front, popped-Holds keys x xs h)

-- After a backspace where no key waits, the next key, other than 0, is stored before the head: a
-- pop returns 0.
pub backspace-lost :
    (keys : Keys) (c : ℕ) → Holds keys [] → c ≢ 0 → (pop (push (some (backspace keys)) c).0).0 ≡ 0
unfolding pop push backspace get_tail_index
backspace-lost keys c h key = ground (arith, h.stored 0, h.tail_at, h.head_bound, key)
