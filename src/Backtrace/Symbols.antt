-- ===== src/Backtrace/Symbols.antt =====
-- Which symbol `AddrToName` finds.
use mephi_os_labs.Prelude.{ℕ, ◌+◌, ◌-◌, ◌≤◌, ◌<◌, ◌≡◌, ◌≢◌, true, false, Option, none, some}
use mephi_os_labs.Backtrace.{Shdr, Elf, is_table, cnt_symbols, in_symbol, name_of}

-- No symbol of a table from `j` on, `n` of them, has the address.
abbrev pub NoSymbol : {S : Type 0} → Elf S → Shdr → ℕ → ℕ → ℕ → Type 0
NoSymbol self h addr n j =
    (k : ℕ) → j ≤ k → k < j + n → in_symbol (self.sym_at h.sh_offset k) addr ≡ false

-- The first symbol that has the address is the `k`-th one, and `x` is its name.
pub record FirstSymbol {S : Type 0} (self : Elf S) (h : Shdr) (addr n j : ℕ) (x : S) : Type 0 where
  pub index : ℕ
  pub lower : j ≤ index
  pub upper : index < j + n
  pub has : in_symbol (self.sym_at h.sh_offset index) addr ≡ true
  pub first : NoSymbol self h addr (index - j) j
  pub name : x ≡ name_of self h (self.sym_at h.sh_offset index)

abbrev pub TableResult : {S : Type 0} → Elf S → Shdr → ℕ → ℕ → ℕ → Option S → Type 0
TableResult self h addr n j none = NoSymbol self h addr n j
TableResult self h addr n j (some x) = FirstSymbol self h addr n j x

-- Sections that are tables have no symbol with the address, for `n` sections from `i` on.
abbrev pub NoTable : {S : Type 0} → Elf S → ℕ → ℕ → ℕ → Type 0
NoTable self addr n i =
    (k : ℕ)
    → i ≤ k
    → k < i + n
    → is_table (self.section k) ≡ true
    → NoSymbol self (self.section k) addr (cnt_symbols (self.section k)) 0

pub record FirstTable {S : Type 0} (self : Elf S) (addr n i : ℕ) (x : S) : Type 0 where
  pub index : ℕ
  pub lower : i ≤ index
  pub upper : index < i + n
  pub table : is_table (self.section index) ≡ true
  pub symbol : FirstSymbol self (self.section index) addr (cnt_symbols (self.section index)) 0 x
  pub first : NoTable self addr (index - i) i

pub data SectionsResult {S : Type 0} (self : Elf S) (addr n i : ℕ)
    : Option (Option S) → Type 0 where
  missing : NoTable self addr n i → SectionsResult self addr n i (some none)
  present : {x : S} → FirstTable self addr n i x → SectionsResult self addr n i (some (some x))

-- The tables among `n` sections from `i` on have entries of a size that is not 0.
abbrev pub HaveEntries : {S : Type 0} → Elf S → ℕ → ℕ → Type 0
HaveEntries self n i =
    (k : ℕ) → i ≤ k → k < i + n → is_table (self.section k) ≡ true → (self.section k).sh_entsize ≢ 0

module _ {S : Type 0} (self : Elf S) where
  pub data NameResult (addr : ℕ) : Option S → Type 0 where
    nowhere : NoTable self addr self.e_shnum 0 → NameResult addr none
    somewhere : {x : S} → FirstTable self addr self.e_shnum 0 x → NameResult addr (some x)
