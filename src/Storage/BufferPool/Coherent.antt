-- ===== src/Storage/BufferPool/Coherent.antt =====
-- src/storage/buffer_pool.cpp: the pages seen through the pool are the same wherever they are kept.
use curiodb.Prelude.{
  ℕ, ◌≡◌, inl, inr, refl, sym, ap, ◌∙◌, Bool, true, false, List, [], ◌∷◌, Option, none, some,
  if◌then◌else◌, not, ◌||◌, length, ◌==◌, ==_iff, arith, Bool-cases, Option-cases,
}
use curiodb.Prelude.Outcome.{ok}
use curiodb.Storage.SlottedPage.Defs.{page_size}
use curiodb.Storage.BufferPool.Defs.{
  DiskManager, Frame, BufferPool, find_frame, set_frame, erase_frame, flush_page,
}

-- What the pool relies on in a disk of pages, which DiskManager/Laws.antt shows of the disk manager: a page
-- that is read is what the file holds, a write of a page changes its own page only, and is what the file
-- holds afterwards if it succeeds.
pub record IsDisk {State : Type 0} (manager : DiskManager State) : Type 0 where
  pub content : State → ℕ → Option (List ℕ)
  pub read :
      (s : State) (id : ℕ) (bytes : List ℕ)
      → manager.read_page s id ≡ ok bytes
      → (content s id ≡ some bytes) × (length bytes ≡ page_size)
  pub written :
      (s : State) (id : ℕ) (bytes : List ℕ)
      → length bytes ≡ page_size
      → (manager.write_page s id bytes).1 ≡ none
      → content (manager.write_page s id bytes).0 id ≡ some bytes
  pub others :
      (s : State) (id : ℕ) (bytes : List ℕ) (k : ℕ)
      → length bytes ≡ page_size
      → (id == k) ≡ false
      → content (manager.write_page s id bytes).0 k ≡ content s k

-- What holds unless a flag is set.
abbrev pub Unless : Bool → Type 0 → Type 0
Unless true P = Unit
Unless false P = P

pub Unless-intro : (b : Bool) {P : Type 0} → (b ≡ false → P) → Unless b P
Unless-intro true h = tt
Unless-intro false h = h refl

pub Unless-elim : (b : Bool) {P : Type 0} → Unless b P → b ≡ false → P
Unless-elim true h e = absurd (ground arith)
Unless-elim false h e = h

-- A frame whose bytes may differ from the file.
abbrev pub is_busy : Frame → Bool
is_busy f = f.dirty || not (f.pin_count == 0)

abbrev pub bytes_or : Option Frame → Option (List ℕ) → Option (List ℕ)
bytes_or none stored = stored
bytes_or (some f) stored = some f.bytes

pub find_frame-page_id :
    (id : ℕ) (frames : List Frame) (f : Frame) → find_frame id frames ≡ some f → f.page_id ≡ id
unfolding find_frame
find_frame-page_id id [] f e = absurd (ground arith)
find_frame-page_id id (g ∷ frames) f e = elim (Bool-cases (g.page_id == id)) [
  | inl here ↦ let same : g ≡ f = ground arith in rw (← same) ((==_iff g.page_id id).0 here)
  | inr there ↦ find_frame-page_id id frames f (ground arith)
]

pub find_frame-set_frame_other :
    (id k : ℕ) (new : Frame) (frames : List Frame)
    → new.page_id ≡ id
    → (id == k) ≡ false
    → find_frame k (set_frame id new frames) ≡ find_frame k frames
unfolding find_frame set_frame
find_frame-set_frame_other id k new [] named other = refl
find_frame-set_frame_other id k new (g ∷ frames) named other = ground (
  arith,
  find_frame-set_frame_other id k new frames named other,
  ==_iff g.page_id id,
  ==_iff id k,
  ==_iff g.page_id k,
  ==_iff new.page_id k,
)

pub find_frame-set_frame_same :
    (id : ℕ) (new old : Frame) (frames : List Frame)
    → new.page_id ≡ id
    → find_frame id frames ≡ some old
    → find_frame id (set_frame id new frames) ≡ some new
unfolding find_frame set_frame
find_frame-set_frame_same id new old [] named e = absurd (ground arith)
find_frame-set_frame_same id new old (g ∷ frames) named e = elim (Bool-cases (g.page_id == id)) [
  | inl here ↦ ground (arith, here, ==_iff new.page_id id)
  | inr there ↦
      let inside : find_frame id frames ≡ some old = ground (arith, there) in
      ground (arith, there, find_frame-set_frame_same id new old frames named inside)
]

pub find_frame-erase_frame :
    (id k : ℕ) (frames : List Frame)
    → find_frame k (erase_frame id frames) ≡ (if id == k then none else find_frame k frames)
unfolding find_frame erase_frame
find_frame-erase_frame id k [] = ground arith
find_frame-erase_frame id k (g ∷ frames) = ground (
  arith,
  find_frame-erase_frame id k frames,
  ==_iff g.page_id id,
  ==_iff id k,
  ==_iff g.page_id k,
)

module _ {State : Type 0} (manager : DiskManager State) (disk : IsDisk manager) where
  -- The page through the pool: its frame's bytes, or else what the file holds.
  unfoldable pub page_at : BufferPool State → ℕ → Option (List ℕ)
  page_at pool k = bytes_or (find_frame k pool.frames) (disk.content pool.disk k)

  -- A frame has a page of bytes; one that is neither dirty nor pinned has what the file holds. The holder of a
  -- guard may have written to a frame that is pinned.
  abbrev pub IsClean : State → Option Frame → ℕ → Type 0
  IsClean s none k = Unit
  IsClean s (some f) k =
      (length f.bytes ≡ page_size) × Unless (is_busy f) (disk.content s k ≡ some f.bytes)

  pub IsClean-file :
      (o : Option Frame) (s s' : State) (k : ℕ)
      → disk.content s k ≡ disk.content s' k
      → IsClean s' o k
      → IsClean s o k
  IsClean-file none s s' k e h = tt
  IsClean-file (some f) s s' k e (size, h) =
      (size, Unless-intro (is_busy f) (λ clean. e ∙ Unless-elim (is_busy f) h clean))

  pub IsClean-size :
      (o : Option Frame) (s : State) (k : ℕ) (f : Frame)
      → o ≡ some f
      → IsClean s o k
      → length f.bytes ≡ page_size
  IsClean-size none s k f e h = absurd (ground arith)
  IsClean-size (some g) s k f e (size, h) =
      let same : g ≡ f = ground arith in ap (λ (f : Frame). length f.bytes) (sym same) ∙ size

  abbrev pub IsCoherent : BufferPool State → Type 0
  IsCoherent pool = (k : ℕ) → IsClean pool.disk (find_frame k pool.frames) k

  -- The same pages are seen, and frames that are neither dirty nor pinned have what the file holds.
  pub record Keeps (before after : BufferPool State) : Type 0 where
    pub coherent : IsCoherent after
    pub same : (k : ℕ) → page_at after k ≡ page_at before k

  pub Keeps-refl : (pool : BufferPool State) → IsCoherent pool → Keeps pool pool
  Keeps-refl pool h = record { coherent = h; same = λ k. refl }

  pub Keeps-trans : (a b c : BufferPool State) → Keeps a b → Keeps b c → Keeps a c
  Keeps-trans a b c first second = record {
    coherent = second.coherent;
    same = λ k. second.same k ∙ first.same k;
  }

  -- One frame is changed but for its bytes, and the file at its page.
  pub set_frame-Keeps :
      (pool : BufferPool State) (id clock : ℕ) (s : State) (old new : Frame)
      → IsCoherent pool
      → find_frame id pool.frames ≡ some old
      → new.page_id ≡ id
      → new.bytes ≡ old.bytes
      → ((k : ℕ) → (id == k) ≡ false → disk.content s k ≡ disk.content pool.disk k)
      → (is_busy new ≡ false → disk.content s id ≡ some old.bytes)
      → Keeps pool (record pool { disk = s; clock = clock; frames = set_frame id new pool.frames })
  unfolding page_at
  set_frame-Keeps pool id clock s old new h there named same others clean = record {
    coherent = λ k. elim (Bool-cases (id == k)) [
      | inl here ↦
          rw (← (==_iff id k).0 here, find_frame-set_frame_same id new old pool.frames named there)
            (
              ap length same ∙ IsClean-size _ pool.disk id old there (h id),
              Unless-intro (is_busy new) (λ e. clean e ∙ ap some (sym same)),
            )
      | inr other ↦
          rw (find_frame-set_frame_other id k new pool.frames named other)
            (IsClean-file (find_frame k pool.frames) s pool.disk k (others k other) (h k))
    ];
    same = λ k. elim (Bool-cases (id == k)) [
      | inl here ↦
          rw
            (
              ← (==_iff id k).0 here,
              find_frame-set_frame_same id new old pool.frames named there,
              there,
            )
            (ap some same)
      | inr other ↦
          rw (find_frame-set_frame_other id k new pool.frames named other, others k other) refl
    ];
  }

  -- The file is changed at the page of a dirty frame.
  dirty-Keeps :
      (pool : BufferPool State) (id : ℕ) (s : State) (f : Frame)
      → IsCoherent pool
      → find_frame id pool.frames ≡ some f
      → f.dirty ≡ true
      → ((k : ℕ) → (id == k) ≡ false → disk.content s k ≡ disk.content pool.disk k)
      → Keeps pool (record pool { disk = s })
  unfolding page_at
  dirty-Keeps pool id s f h there soiled others = record {
    coherent = λ k. elim (Bool-cases (id == k)) [
      | inl here ↦
          rw (← (==_iff id k).0 here, there)
            (
              IsClean-size _ pool.disk id f there (h id),
              Unless-intro (is_busy f) (λ e. absurd (ground arith)),
            )
      | inr other ↦ IsClean-file (find_frame k pool.frames) s pool.disk k (others k other) (h k)
    ];
    same = λ k. elim (Bool-cases (id == k)) [
      | inl here ↦ rw (← (==_iff id k).0 here, there) refl
      | inr other ↦ rw (others k other) refl
    ];
  }

  pub flush_page-Keeps :
      (pool : BufferPool State) (id : ℕ)
      → IsCoherent pool
      → Keeps pool (flush_page manager pool id).0
  unfolding flush_page page_at
  flush_page-Keeps pool id h =
      let size : (f : Frame) → find_frame id pool.frames ≡ some f → length f.bytes ≡ page_size =
        λ f there. IsClean-size _ pool.disk id f there (h id) in
      elim (Option-cases (find_frame id pool.frames)) [
        | inl absent ↦ rw (absent, flush_page) (record { coherent = h; same = λ k. refl })
        | inr (f, there) ↦ elim (Bool-cases f.dirty) [
          | inr clean ↦
              rw (there, flush_page) (rw clean (record { coherent = h; same = λ k. refl }))
          | inl soiled ↦ elim (Option-cases (manager.write_page pool.disk id f.bytes).1) [
            | inr (e, failed) ↦
                rw (there, flush_page)
                  (rw soiled (
                    rw failed (
                      dirty-Keeps pool id _ f h there soiled
                        (λ k. disk.others pool.disk id f.bytes k (size f there)))))
            | inl done ↦
                rw (there, flush_page)
                  (rw soiled (
                    rw done (
                      set_frame-Keeps pool id pool.clock _ f (record f { dirty = false }) h there
                        (find_frame-page_id id pool.frames f there) refl
                        (λ k. disk.others pool.disk id f.bytes k (size f there))
                        (λ e. disk.written pool.disk id f.bytes (size f there) done))))
          ]
        ]
      ]
