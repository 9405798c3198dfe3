-- ===== src/Machine/Ports.antt =====
-- IO.c: what the code does to the machine besides memory, as the sequence of its actions, and the
-- devices that answer `inb`.
use red_fox32_old.Base.{ℕ, ◌%◌, List, [], ◌∷◌, ◌++◌}

-- One action, with its operands: `outb`, `outw`, an `inb` with the byte that it got, the
-- instructions `cli`, `sti` and `hlt`, `lidt` with the pointer's limit and base, and a call through
-- a function pointer.
pub data Action : Type 0 where
  out8 : (port value : ℕ) → Action
  out16 : (port value : ℕ) → Action
  in8 : (port value : ℕ) → Action
  cli sti hlt : Action
  lidt : (limit base : ℕ) → Action
  call : (function : ℕ) → Action

-- What has happened, the oldest action first.
abbrev pub Trace : Type 0
Trace = List Action

abbrev pub outb : (port value : ℕ) → Trace → Trace
outb port value t = t ++ out8 port value ∷ []

abbrev pub outw : (port value : ℕ) → Trace → Trace
outw port value t = t ++ out16 port value ∷ []

-- The devices: the byte that a port gives after all that has happened.
abbrev pub Device : Type 0
Device = Trace → ℕ → ℕ

abbrev pub inb : Device → (port : ℕ) → Trace → ℕ × Trace
inb device port t = let v = device t port % 256 in (v, t ++ in8 port v ∷ [])
