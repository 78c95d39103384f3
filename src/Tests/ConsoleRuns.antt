-- ===== src/Tests/ConsoleRuns.antt =====
-- Runs of internal/console/acl.
use ultimate_game_server.Prelude.{
  ℕ, ◌+◌, ◌*◌, ◌<◌, ◌≡◌, refl, ◌↔◌, true, false, ◌||◌, arith, ◌==◌, string_key,
}
use ultimate_game_server.Console.Permission.{
  resource_count, byte_count, repeat, no_permission, admin, is_full, is_zero, all_full, all_blank,
  is_admin, is_none, covers, covers_each, has_access, copy_into, or_byte, or_into, compose, set_bit,
  set_bits, new_permission, Permission,
}
use ultimate_game_server.Console.Grants.{get, grants, IsWhole}
use ultimate_game_server.Console.Access.{has_access_iff, grants-compose, grants-new_permission}

program : Unit {0}
unfolding resource_count byte_count repeat no_permission admin is_full is_zero all_full all_blank
    is_admin is_none covers covers_each has_access copy_into or_byte or_into compose set_bit
    set_bits new_permission get grants
program = tt

-- `ResourceUser` is 14 and `ResourceGroup` 15; the levels are 0 to read, 1 to write, 2 to delete.
abbrev read_user : Permission
read_user = new_permission 14 0

abbrev write_group : Permission
write_group = new_permission 15 1

abbrev both : Permission
both = compose read_user write_group

read_user-IsWhole : IsWhole read_user
unfolding program
read_user-IsWhole = record { bytes = refl; bits = ground arith }

write_group-IsWhole : IsWhole write_group
unfolding program
write_group-IsWhole = record { bytes = refl; bits = ground arith }

both-IsWhole : IsWhole both
unfolding program
both-IsWhole = record { bytes = refl; bits = ground arith }

both_reads : has_access both read_user ≡ true
unfolding program
both_reads = refl

user_writes_not : has_access read_user write_group ≡ false
unfolding program
user_writes_not = refl

admin_writes : has_access admin write_group ≡ true
unfolding program
admin_writes = refl

has_access_iff_example :
    (has_access both read_user ≡ true)
    ↔ ((k j : ℕ) → grants read_user k j ≡ true → grants both k j ≡ true)
has_access_iff_example = has_access_iff both read_user both-IsWhole read_user-IsWhole

grants-compose_example :
    grants (compose read_user write_group) 5 6 ≡ (grants read_user 5 6 || grants write_group 5 6)
grants-compose_example =
    grants-compose read_user write_group read_user-IsWhole write_group-IsWhole 5 6

five_small : 5 < byte_count
unfolding program
five_small = omega arith

grants-new_permission_example : grants (new_permission 15 1) 5 6 ≡ (8 * 5 + 6 == 15 * 3 + 1)
grants-new_permission_example = grants-new_permission 15 1 5 6 five_small (omega arith)
