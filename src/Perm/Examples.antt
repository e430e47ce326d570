-- ===== src/Perm/Examples.antt =====
-- The theorem about perm.c at the default mode of a file, rw-r--r--.
use har_lin_kernel.Base.{ℕ, ◌/◌, ◌%◌, ◌^◌, ◌≡◌, ◌↔◌, refl, true, false, ◌&&◌, ltb}
use har_lin_kernel.Base.Bits.{test_bit}
use har_lin_kernel.Perm.{perm_check}
use har_lin_kernel.Perm.Check.{class_place, perm_check_lem}

abbrev default_file : ℕ
default_file = 0b110100100

-- A member of the group may read, and not write.
group_reads : perm_check default_file 100 10 200 10 4 ≡ true
unfolding perm_check
group_reads = refl

group_writes : perm_check default_file 100 10 200 10 2 ≡ false
unfolding perm_check
group_writes = refl

perm_check_lem_example : (perm_check default_file 100 10 200 10 4 ≡ true) ↔ (
    (i : ℕ)
    → (test_bit (4 % 2 ^ 16) i
        && (test_bit (default_file / 2 ^ class_place 100 10 200 10) i && ltb i 3))
      ≡ test_bit (4 % 2 ^ 16) i)
perm_check_lem_example = perm_check_lem default_file 100 10 200 10 4
