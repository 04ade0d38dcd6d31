-- ===== src/Tests/Pages.antt =====
-- The theorems on the MMU at two free frames.
use trollos.Base.{
  ℕ, ◌%◌, ◌^◌, ◌≡◌, ◌≢◌, ◌⊎◌, refl, none, List, [], ◌∷◌, arith, ◌==◌, if◌then◌else◌, Ends,
}
use trollos.Mmu.{Mmu, alloc_frame, free_frame}
use trollos.Mmu.Frames.{IsFrame, FreeList, Taken, alloc_frame-Taken, free_frame-FreeList}
use trollos.Mmu.Copy.{copy_from_userspace, Translates, user_bytes, copy_from_userspace-user_bytes}

-- The frames at 4096 and 8192 are free.
abbrev two_free : Mmu
two_free = record {
  memory = λ a. if a == 4096 then 8192 else 0;
  page_descriptor = λ i. none;
  mapping = 1;
  free_frames = 2;
  total_frames = 4;
  next_frame = 4096;
  handle = λ a. 0;
  srp = 0;
  urp = 0;
}

abbrev frames : List ℕ
frames = 4096 ∷ 8192 ∷ []

two_free-FreeList : FreeList two_free frames
two_free-FreeList = record {
  chain = (refl, first, ((λ e. absurd (omega (arith, e))), tt), (refl, second, tt, refl));
  counted = omega arith;
  room = omega arith;
}
  where
    first : IsFrame 4096
    first = record { on_page = omega arith; not_null = omega arith; in_memory = omega arith }

    second : IsFrame 8192
    second = record { on_page = omega arith; not_null = omega arith; in_memory = omega arith }

alloc_frame-Taken_example :
    Ends
      (λ frame s'.
        ((two_free.free_frames ≡ 0) × (frame ≡ 0) × (s' ≡ two_free))
        ⊎ ((rest : List ℕ) × (frames ≡ frame ∷ rest) × Taken two_free frame rest s'))
      (λ _ _. ⊥)
      (alloc_frame two_free)
alloc_frame-Taken_example = alloc_frame-Taken two_free frames two_free-FreeList

free_frame-FreeList_example :
    Ends
      (λ _ s'.
        FreeList s' (12288 ∷ frames)
        × (s'.free_frames ≡ 2)
        × ((a : ℕ) → a ≢ 12288 → s'.memory a ≡ two_free.memory a))
      (λ _ _. ⊥)
      (free_frame 12288 two_free)
free_frame-FreeList_example =
    free_frame-FreeList two_free 12288 frames two_free-FreeList
      (record { on_page = omega arith; not_null = omega arith; in_memory = omega arith })
      ((λ e. absurd (omega (arith, e))), ((λ e. absurd (omega (arith, e))), tt))

-- Every address is its own translation.
abbrev same : (ℕ → ℕ) → ℕ → ℕ → ℕ
same memory urp a = a % 2 ^ 32

same-Translates : Translates same two_free.memory 0
same-Translates = record {
  in_memory = λ a. omega arith;
  same_page = λ a ne. omega arith;
  same_offset = λ a. omega arith;
}

copy_from_userspace-user_bytes_example :
    Ends
      (λ bytes t.
        (bytes ≡ user_bytes same two_free.memory 0 4 4094)
        × (t.memory ≡ two_free.memory)
        × (t.mapping ≡ 1))
      (λ _ _. ⊥)
      (copy_from_userspace same 4094 4 two_free)
copy_from_userspace-user_bytes_example =
    copy_from_userspace-user_bytes same 4 4094 two_free same-Translates (omega arith) (omega arith)
