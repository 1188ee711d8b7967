-- ===== src/Kalloc/Tests.antt =====
-- An allocator with three pages behind a kernel that ends at 0x80100004.
use mephi_os_labs.Prelude.{ℕ, ◌+◌, ◌≡◌, refl, none, [], ◌∷◌, arith}
use mephi_os_labs.Kalloc.{Kmem, is_bad, kfree, kalloc}
use mephi_os_labs.Kalloc.Free.{IsPage, IsFree, Allocated, freed, kfree-IsFree, kalloc-IsFree}

abbrev kernel_end : ℕ
kernel_end = 2148532228

abbrev page : ℕ
page = 2148536320

abbrev nothing : Kmem
nothing = record { freelist = 0; memory = λ _. 0 }

nothing-IsFree : IsFree kernel_end nothing []
nothing-IsFree = record { chain = refl; pages = tt; distinct = tt; kernel = omega arith }

page-IsPage : IsPage kernel_end page
page-IsPage = record {
  aligned = refl;
  above = omega arith;
  below = omega arith;
  word = omega arith;
}

one-IsFree : IsFree kernel_end (freed page nothing) (page ∷ [])
one-IsFree = (kfree-IsFree kernel_end page nothing [] nothing-IsFree page-IsPage tt).1

kalloc-IsFree_example :
    Allocated kernel_end (kalloc (freed page nothing)) (freed page nothing) (page ∷ [])
kalloc-IsFree_example = kalloc-IsFree kernel_end (freed page nothing) (page ∷ []) one-IsFree

-- A page that is not aligned.
kfree-panic : kfree kernel_end (page + 4) nothing ≡ none
unfolding kfree is_bad
kfree-panic = refl
