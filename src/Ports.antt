-- ===== src/Ports.antt =====
-- io/io.h: the instructions that read and write the ports of devices. What a device answers is a
-- parameter: a device has a state, which every access may change.
use anaga.Prelude.{ℕ}

pub record Ports : Type 1 where
  pub Device : Type 0
  pub inb : ℕ → Device → ℕ × Device
  pub outb : ℕ → ℕ → Device → Device
  pub inw : ℕ → Device → ℕ × Device
  pub outw : ℕ → ℕ → Device → Device
  pub inl : ℕ → Device → ℕ × Device
  pub outl : ℕ → ℕ → Device → Device
