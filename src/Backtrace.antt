-- ===== src/Backtrace.antt =====
-- elf/backtrace/backtrace.c: the search for the function that an address lies in, through the tables of
-- symbols of an ELF file, and the walk over the frames of the stack.
pub mod Symbols
pub mod Walk
mod Tests
use mephi_os_labs.Prelude.{
  ℕ, zero, suc, ◌+◌, ◌/◌, ◌%◌, ◌^◌, Bool, not, ◌&&◌, ◌||◌, Option, none, some, List, [], ◌∷◌, ltb,
  leb, ◌==◌, if◌then◌else◌,
}

-- `Elf64_Sym`
pub record Sym : Type 0 where
  pub st_name : ℕ
  pub st_value : ℕ
  pub st_size : ℕ

-- `Elf64_Shdr`
pub record Shdr : Type 0 where
  pub sh_type : ℕ
  pub sh_size : ℕ
  pub sh_entsize : ℕ
  pub sh_offset : ℕ
  pub sh_link : ℕ

-- The mapped file: the headers of its sections, the `j`-th symbol from an offset on, and the string at
-- an offset.
pub record Elf (S : Type 0) : Type 0 where
  pub e_shnum : ℕ
  pub section : ℕ → Shdr
  pub sym_at : ℕ → ℕ → Sym
  pub string_at : ℕ → S

-- `SHT_SYMTAB` and `SHT_DYNSYM`
abbrev pub is_table : Shdr → Bool
is_table h = h.sh_type == 2 || h.sh_type == 11

-- `cnt_symbols`
abbrev pub cnt_symbols : Shdr → ℕ
cnt_symbols h = h.sh_size / h.sh_entsize

-- The address lies in the function of a symbol.
abbrev pub in_symbol : Sym → ℕ → Bool
in_symbol y addr = leb y.st_value addr && ltb addr ((y.st_value + y.st_size) % 2 ^ 64)

module _ {S : Type 0} where
  abbrev pub name_of : Elf S → Shdr → Sym → S
  name_of self h y = self.string_at ((self.section h.sh_link).sh_offset + y.st_name)

  -- The loop over `j`, with `n` symbols to go: the name that is copied, if any.
  unfoldable pub search_table : Elf S → Shdr → ℕ → ℕ → ℕ → Option S
  search_table self h addr zero j = none
  search_table self h addr (suc n) j =
      let rest = search_table self h addr n (j + 1) in
      let y = self.sym_at h.sh_offset j in
      if in_symbol y addr then some (name_of self h y) else rest

  abbrev pub unless_found : Option S → Option (Option S) → Option (Option S)
  unless_found none rest = rest
  unless_found (some x) rest = some (some x)

  -- The loop over `i`, with `n` sections to go; none where the division by `sh_entsize` traps.
  unfoldable pub search_sections : Elf S → ℕ → ℕ → ℕ → Option (Option S)
  search_sections self addr zero i = some none
  search_sections self addr (suc n) i =
      let rest = search_sections self addr n (i + 1) in
      let h = self.section i in
      if not (is_table h)
      then rest
      else if h.sh_entsize == 0
      then none
      else unless_found (search_table self h addr (cnt_symbols h) 0) rest

  -- `AddrToName`: some none for NULL.
  unfoldable pub addr_to_name : Elf S → ℕ → Option (Option S)
  addr_to_name self addr = search_sections self addr self.e_shnum 0

infixl 5 ◌>>=◌
-- A load that faults ends the program.
abbrev pub ◌>>=◌ {ℓ κ} : {A : Type ℓ} {B : Type κ} → Option A → (A → Option B) → Option B
none >>= f = none
some a >>= f = f a

-- The loop of `Backtrace` with `n` rounds to go: the addresses that it writes, none where a load faults.
-- `is_main` tells whether the name of an address is "main".
unfoldable pub walk : (ℕ → Option ℕ) → (ℕ → Bool) → ℕ → ℕ → Option (List ℕ)
walk load is_main zero rbp = some []
walk load is_main (suc n) rbp = do
  a ← load (rbp + 8)
  let more = do up ← load rbp; rest ← walk load is_main n up; some (a ∷ rest)
  if is_main a then some (a ∷ []) else more

-- `Backtrace` for a limit that is not negative: `last` goes from -1 to `limit`.
unfoldable pub backtrace : (ℕ → Option ℕ) → (ℕ → Bool) → ℕ → ℕ → Option (List ℕ)
unfolding walk
backtrace load is_main limit rbp = walk load is_main (limit + 1) rbp
