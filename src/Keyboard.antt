-- ===== src/Keyboard.antt =====
-- The key buffer that keyboard/keyboard.c keeps in each process.
pub mod Queue
mod Tests
use peach_os64bit_module_two.Common.{
  ℕ, ◌+◌, ◌-◌, ◌%◌, ◌^◌, Option, none, some, List, [], ◌∷◌, ◌==◌, if◌then◌else◌, update,
}

abbrev pub buffer_size : ℕ
buffer_size = 1024

-- The `keyboard` of `struct process`. `tail` and `head` are an `int` each, by its 32 bits.
pub record Keys : Type 0 where
  pub buffer : ℕ → ℕ
  pub tail : ℕ
  pub head : ℕ

-- `keyboard_get_tail_index`: the `int` is extended to 64 bits first, a multiple of the size.
unfoldable pub get_tail_index : Keys → ℕ
get_tail_index keys = keys.tail % buffer_size

-- `keyboard_backspace`
unfoldable pub backspace : Keys → Keys
unfolding get_tail_index
backspace keys =
    let tail = (keys.tail + (2 ^ 32 - 1)) % 2 ^ 32 in
    record keys { tail = tail; buffer = update keys.buffer (tail % buffer_size) 0 }

-- `keyboard_push` in the current process, if there is one, with the bytes of the keys that its
-- event tells the listeners of.
unfoldable pub push : Option Keys → ℕ → Option Keys × List ℕ
push none c = (none, [])
push (some keys) c = if c == 0 then (some keys, []) else (
  some (record keys {
    buffer = update keys.buffer (get_tail_index keys) c;
    tail = (keys.tail + 1) % 2 ^ 32;
  }),
  c ∷ [],
)

-- `keyboard_pop`, in the process of the current task.
unfoldable pub pop : Option Keys → ℕ × Option Keys
pop none = (0, none)
pop (some keys) = if keys.buffer (keys.head % buffer_size) == 0 then (0, some keys) else (
  keys.buffer (keys.head % buffer_size),
  some (record keys {
    buffer = update keys.buffer (keys.head % buffer_size) 0;
    head = (keys.head + 1) % 2 ^ 32;
  }),
)
