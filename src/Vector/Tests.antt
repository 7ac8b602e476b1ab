-- ===== src/Vector/Tests.antt =====
-- The theorems on lib/vector/vector.c for a vector of one element of two bytes.
use peach_os64bit_module_two.Common.{ℕ, ◌+◌, ◌-◌, ◌%◌, ◌≡◌, ◌⊎◌, inl, if◌then◌else◌, arith}
use peach_os64bit_module_two.Common.Int.{pos}
use peach_os64bit_module_two.Status.{ok, err, enomem}
use peach_os64bit_module_two.Memory.{Mem}
use peach_os64bit_module_two.Memory.Laws.{within}
use peach_os64bit_module_two.Vector.Search.{IsBuffer}
use peach_os64bit_module_two.Vector.Remove.{PopsElement, vector_pop_element-PopsElement}
use peach_os64bit_module_two.Vector.{Vector, vector_pop_element, vector_push}
use peach_os64bit_module_two.Vector.Elements.{IsVector}
use peach_os64bit_module_two.Vector.Push.{IsRealloc, Pushed, vector_push-Pushed}

abbrev bytes : Mem
bytes a = a % 256

abbrev block : ℕ
block = 10

abbrev one : Vector
one = record {
  memory = 100;
  flags = 0;
  e_size = 2;
  t_elems = 1;
  tm_elems = 1;
  t_reserved_elements = 4;
}

one-IsVector : IsVector one
one-IsVector = record {
  count = omega arith;
  fits = omega arith;
  small = omega arith;
  counted = omega arith;
}

-- A krealloc that moves the two bytes at 100 to 1000.
abbrev to_thousand : Mem → ℕ → ℕ → ℕ × Mem
to_thousand m old size = (1000, λ a. if within 1000 2 a then m (old + (a - 1000)) else m a)

to_thousand-IsRealloc : IsRealloc bytes one block 12 (to_thousand bytes 100 12)
to_thousand-IsRealloc = record {
  fits = λ _. omega arith;
  kept = λ _ o lt. ground (arith, lt);
  other = λ _ k lt. ground (arith, lt);
  apart = λ _. inl (omega arith);
}

vector_push-Pushed_example :
    let (res, v', m') = vector_push to_thousand bytes one block in
    ((res ≡ ok (pos 1)) × Pushed bytes one block m' v')
    ⊎ ((res ≡ err enomem) × (v' ≡ record one { memory = 0 }))
vector_push-Pushed_example =
    vector_push-Pushed to_thousand bytes one one-IsVector block (inl (omega arith)) (omega arith)
      (omega arith) to_thousand-IsRealloc

abbrev three : Vector
three = record {
  memory = 100;
  flags = 0;
  e_size = 2;
  t_elems = 3;
  tm_elems = 5;
  t_reserved_elements = 4;
}

three-IsVector : IsVector three
three-IsVector = record {
  count = omega arith;
  fits = omega arith;
  small = omega arith;
  counted = omega arith;
}

-- The value lies in the vector, the buffer before it.
three-IsBuffer : IsBuffer three 102 10
three-IsBuffer = record {
  there = ground arith;
  apart = inl (omega arith);
  other = inl (omega arith);
}

vector_pop_element-PopsElement_example :
    PopsElement three three-IsVector
      (omega arith)
      102
      10
      three-IsBuffer
      bytes
      (vector_pop_element bytes three 102 2 10)
vector_pop_element-PopsElement_example =
    vector_pop_element-PopsElement three three-IsVector (omega arith) 102 10 three-IsBuffer bytes
