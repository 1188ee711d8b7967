-- ===== src/Backtrace/Tests.antt =====
-- A file with one table of two symbols, and a stack of two frames.
use mephi_os_labs.Prelude.{
  ℕ, ◌+◌, ◌*◌, ◌≡◌, refl, inr, true, Option, none, some, List, [], ◌∷◌, ◌==◌, if◌then◌else◌, take,
}
use mephi_os_labs.Backtrace.{
  Shdr, Elf, search_table, search_sections, addr_to_name, walk, backtrace,
}
use mephi_os_labs.Backtrace.Walk.{Frames, has_main, up_to_main, backtrace-up_to_main}

abbrev strings : Shdr
strings = record { sh_type = 3; sh_size = 40; sh_entsize = 0; sh_offset = 500; sh_link = 0 }

abbrev table : Shdr
table = record { sh_type = 2; sh_size = 48; sh_entsize = 24; sh_offset = 600; sh_link = 0 }

abbrev section : ℕ → Shdr
section i = if i == 1 then table else strings

-- The names are the offsets of the strings.
abbrev file : Elf ℕ
file = record {
  e_shnum = 2;
  section = section;
  sym_at = λ o j. record { st_name = 7 * j; st_value = 4096 + 64 * j; st_size = 64 };
  string_at = λ o. o;
}

addr_to_name_4170 : addr_to_name file 4170 ≡ some (some 507)
unfolding addr_to_name search_sections search_table
addr_to_name_4170 = refl

addr_to_name_9 : addr_to_name file 9 ≡ some none
unfolding addr_to_name search_sections search_table
addr_to_name_9 = refl

-- The frame at 100 returns to 11 and the one at 200 to 12.
abbrev load : ℕ → Option ℕ
load a =
    if a == 108
    then some 11
    else if a == 100
    then some 200
    else if a == 208
    then some 12
    else if a == 200
    then some 300
    else none

abbrev trace : List ℕ
trace = 11 ∷ 12 ∷ []

trace-Frames : Frames load 100 trace
trace-Frames = Frames.frame refl refl (Frames.frame refl refl Frames.bottom)

main_seen : has_main (λ a. a == 12) trace ≡ true
unfolding has_main
main_seen = refl

backtrace-up_to_main_example :
    backtrace load (λ a. a == 12) 10 100 ≡ some (up_to_main (λ a. a == 12) (take (10 + 1) trace))
backtrace-up_to_main_example =
    backtrace-up_to_main load (λ a. a == 12) 10 100 trace trace-Frames (inr main_seen)

backtrace_full : backtrace load (λ a. a == 12) 10 100 ≡ some trace
unfolding backtrace walk
backtrace_full = refl
