-- ===== src/Version.antt =====
-- version/version.h and version/version.c.
use anaga.Prelude.{ℕ, ◌/◌, ◌%◌, ◌^◌, Option, ◌>>=◌, literal, pos, some}
use anaga.Display.{Screen, kputc, kprint, kprint_num}

abbrev pub anaga_version_full_hex : ℕ
anaga_version_full_hex = 0x00000001

abbrev pub anaga_version_major : ℕ
anaga_version_major = anaga_version_full_hex / 2 ^ 24 % 2 ^ 8

abbrev pub anaga_version_minor : ℕ
anaga_version_minor = anaga_version_full_hex / 2 ^ 16 % 2 ^ 8

abbrev pub anaga_version_patch : ℕ
anaga_version_patch = anaga_version_full_hex / 2 ^ 8 % 2 ^ 8

abbrev pub anaga_version_build : ℕ
anaga_version_build = anaga_version_full_hex % 2 ^ 8

unfoldable pub print_kernel_version : Screen → Option Screen
print_kernel_version s = do
  s1 ← kprint (some (literal "Anaga Kernel v")) s
  s2 ← kprint_num (pos anaga_version_major) s1
  s3 ← kputc b'.' s2
  s4 ← kprint_num (pos anaga_version_minor) s3
  s5 ← kputc b'.' s4
  s6 ← kprint_num (pos anaga_version_patch) s5
  s7 ← kputc b'.' s6
  s8 ← kprint_num (pos anaga_version_build) s7
  kputc b'\n' s8
