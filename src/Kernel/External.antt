-- ===== src/Kernel/External.antt =====
-- What the modelled code takes from elsewhere: the addresses that the linker and the compiler
-- choose, and the string functions of lib/libxc, a copy of another project's library.
use bkernel.Base.{ℕ, List}

pub record Image : Type 0 where
  -- `getCS()`, an assembly routine.
  pub cs : ℕ
  -- The addresses of the functions of these names.
  pub sysstop : ℕ
  pub idleproc : ℕ
  pub root : ℕ
  pub sigtramp : ℕ
  -- Where the parameter `pid` of `send` lies.
  pub send_pid : ℕ
  -- `&dev_table[i]`.
  pub dev_addr : ℕ → ℕ
  -- What a caller reads where a function returned no value, and in an uninitialised variable.
  pub indeterminate : ℕ
  -- `strncpy(dst, src, n)` on two arrays that are no part of `byte`.
  pub strncpy : (dst src : List ℕ) → (n : ℕ) → List ℕ
  -- `sprintf(dst, "%s", src)`, `strncpy(dst, "", n)`, `strcat(dst, s)` and `strncat(dst, s, n)` on
  -- the bytes of memory, the latter two for a string `s` outside of it.
  pub sprintf : (ℕ → ℕ) → (dst src : ℕ) → ℕ → ℕ
  pub strncpy_empty : (ℕ → ℕ) → (dst n : ℕ) → ℕ → ℕ
  pub strcat : (ℕ → ℕ) → (dst : ℕ) → List ℕ → ℕ → ℕ
  pub strncat : (ℕ → ℕ) → (dst : ℕ) → List ℕ → (n : ℕ) → ℕ → ℕ
