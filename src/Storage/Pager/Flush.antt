-- ===== src/Storage/Pager/Flush.antt =====
-- internal/storage/pager.go: `Flush`, on a file that does not fail.
use rawth.Base.{
  ℕ, ◌+◌, ◌≤◌, ◌<◌, ◌≡◌, ◌≢◌, refl, sym, ◌∙◌, ap, Bool, true, false, List, [], ◌∷◌, none, some,
  length, ◌==◌, if◌then◌else◌, Bool-cases, arith, Option-cases, inl, inr, ok, ◌⊎◌,
}
use rawth.Bytes.{Bytes}
use rawth.Storage.Disk.{slice, overwrite}
use rawth.Storage.Disk.Slices.{
  slice-overwrite_self, slice-overwrite_before, slice-overwrite_after, length-overwrite,
}
use rawth.Storage.Disk.Calls.{write_at_healthy, sync_healthy}
use rawth.Storage.Node.{page_size}
use rawth.Storage.Pager.{Pager, offset_of, flush, flush_pages}
use rawth.Storage.Pager.Maps.{map_get}
use rawth.Storage.Pager.Pages.{page_at, IsSound}

pub record Flushed (p q : Pager) : Type 0 where
  pub header : q.header ≡ p.header
  pub buffer : q.buffer ≡ p.buffer
  pub pages : (j : ℕ) → j < p.header.page_count → page_at q j ≡ page_at p j
  pub sound : IsSound q

-- Whether a list of page numbers has one.
abbrev pub is_in : ℕ → List ℕ → Bool
is_in j [] = false
is_in j (id ∷ ids) = if id == j then true else is_in j ids

-- The bytes of a page on the file.
abbrev pub on_file_at : Pager → ℕ → Bytes
on_file_at p j = slice p.file.content (offset_of j) page_size

-- The buffered pages of a list are written to their places, and no other page of the file changes.
pub record Dumped (ids : List ℕ) (p q : Pager) : Type 0 where
  pub reached :
      (j : ℕ) (page : Bytes)
      → is_in j ids ≡ true
      → map_get j p.buffer ≡ some page
      → on_file_at q j ≡ page
  pub untouched :
      (j : ℕ)
      → offset_of j + page_size ≤ length p.file.content
      → is_in j ids ≡ false
      → on_file_at q j ≡ on_file_at p j

ne-cases : (a b : ℕ) → (a < b) ⊎ ((b < a) ⊎ (a ≡ b))
ne-cases a b = ground arith

module _ (p : Pager) (s : IsSound p) (id : ℕ) (page : Bytes)
    (e : map_get id p.buffer ≡ some page) where
  written : Pager
  written = record p {
    file = record {
      content = overwrite p.file.content (offset_of id) page;
      faults = p.file.faults;
    };
  }

  -- Another page lies in front of the written bytes or behind them.
  slice_other :
      (j : ℕ)
      → offset_of j + page_size ≤ length p.file.content
      → j ≢ id
      → on_file_at written j ≡ on_file_at p j
  unfolding written
  slice_other j h ne = elim (ne-cases j id) [
    | inl before ↦
        slice-overwrite_before p.file.content page (offset_of id) (offset_of j) page_size
          (omega arith) h
    | inr (inl after) ↦
        slice-overwrite_after p.file.content page (offset_of id) (offset_of j) page_size
          (omega (arith, s.full id page e))
    | inr (inr same) ↦ absurd (ne same)
  ]

  slice_self : on_file_at written id ≡ page
  unfolding written
  slice_self =
      ap (λ n. slice (overwrite p.file.content (offset_of id) page) (offset_of id) n)
        (sym (s.full id page e))
      ∙ slice-overwrite_self p.file.content page (offset_of id)

  room_after :
      (j : ℕ)
      → offset_of j + page_size ≤ length p.file.content
      → offset_of j + page_size ≤ length written.file.content
  unfolding written
  room_after j h = omega (arith, h, length-overwrite p.file.content page (offset_of id))

  room_self : offset_of id + page_size ≤ length written.file.content
  unfolding written
  room_self = omega (arith, s.full id page e, length-overwrite p.file.content page (offset_of id))

  written-Flushed : Flushed p written
  unfolding written page_at
  written-Flushed = record {
    header = refl;
    buffer = refl;
    pages = λ j h. elim (Option-cases (map_get j p.buffer)) [
      | inr (b, hit) ↦ ground (arith, hit)
      | inl miss ↦ ground (
        arith,
        miss,
        slice_other j (omega (arith, s.on_disk, h)) (λ same. ground (arith, same, e, miss)),
      )
    ];
    sound = record {
      full = s.full;
      on_disk = omega (arith, s.on_disk, length-overwrite p.file.content page (offset_of id));
      healthy = s.healthy;
      magic = s.magic;
      counted = s.counted;
    };
  }

Flushed-trans : {p q r : Pager} → Flushed p q → Flushed q r → Flushed p r
Flushed-trans f g = record {
  header = g.header ∙ f.header;
  buffer = g.buffer ∙ f.buffer;
  pages = λ j h. g.pages j (omega (arith, ap (λ x. x.page_count) f.header)) ∙ f.pages j h;
  sound = g.sound;
}

flush_pages-miss :
    (id : ℕ) (ids : List ℕ) (p : Pager)
    → map_get id p.buffer ≡ none
    → flush_pages (id ∷ ids) p ≡ flush_pages ids p
unfolding flush_pages
flush_pages-miss id ids p e = ground (arith, e)

flush_pages-hit :
    (id : ℕ) (ids : List ℕ) (p : Pager) (s : IsSound p) (page : Bytes)
    → (e : map_get id p.buffer ≡ some page)
    → flush_pages (id ∷ ids) p ≡ flush_pages ids (written p s id page e)
unfolding flush_pages written
flush_pages-hit id ids p s page e =
    ground (arith, e, write_at_healthy p.file s.healthy page (offset_of id))

module _ (id : ℕ) (ids : List ℕ) (p : Pager) where
  Dumped-miss : (q : Pager) → map_get id p.buffer ≡ none → Dumped ids p q → Dumped (id ∷ ids) p q
  Dumped-miss q miss d = record {
    reached = λ j page m hit. elim (Bool-cases (id == j)) [
      | inl same ↦ absurd (ground (arith, same, miss, hit))
      | inr other ↦ d.reached j page (ground (arith, m, other)) hit
    ];
    untouched = λ j h m. d.untouched j h (ground (arith, m));
  }

  module _ (s : IsSound p) (page : Bytes) (e : map_get id p.buffer ≡ some page) (q : Pager)
      (d : Dumped ids (written p s id page e) q) where
    first_reached : on_file_at q id ≡ page
    unfolding written
    first_reached = elim (Bool-cases (is_in id ids)) [
      | inl again ↦ d.reached id page again e
      | inr once ↦ d.untouched id (room_self p s id page e) once ∙ slice_self p s id page e
    ]

    Dumped-hit : Dumped (id ∷ ids) p q
    unfolding written
    Dumped-hit = record {
      reached = λ j b m hit. elim (Bool-cases (id == j)) [
        | inl same ↦ ground (arith, same, first_reached, e, hit)
        | inr other ↦ d.reached j b (ground (arith, m, other)) hit
      ];
      untouched = λ j h m.
          d.untouched j (room_after p s id page e j h) (ground (arith, m))
          ∙ slice_other p s id page e j h (λ same. ground (arith, m, same));
    }

flush_pages_lem :
    (ids : List ℕ) (p : Pager)
    → IsSound p
    → (q : Pager) × (flush_pages ids p ≡ (ok tt, q)) × Flushed p q × Dumped ids p q
unfolding flush_pages
flush_pages_lem [] p s = (
  p,
  refl,
  record { header = refl; buffer = refl; pages = λ j h. refl; sound = s },
  record { reached = λ j page m hit. cc; untouched = λ j h m. refl },
)
flush_pages_lem (id ∷ ids) p s = elim (Option-cases (map_get id p.buffer)) [
  | inl miss ↦
      let (q, e, f, d) = flush_pages_lem ids p s in
      (q, flush_pages-miss id ids p miss ∙ e, f, Dumped-miss id ids p q miss d)
  | inr (page, hit) ↦
      let first = written-Flushed p s id page hit in
      let (q, e, f, d) = flush_pages_lem ids (written p s id page hit) first.sound in
      (
        q,
        flush_pages-hit id ids p s page hit ∙ e,
        Flushed-trans first f,
        Dumped-hit id ids p s page hit q d,
      )
]

clean : Pager → Pager
clean p = record p { dirty = [] }

clean-Flushed : (p : Pager) → IsSound p → Flushed p (clean p)
unfolding clean page_at
clean-Flushed p s = record {
  header = refl;
  buffer = refl;
  pages = λ j h. refl;
  sound = record {
    full = s.full;
    on_disk = s.on_disk;
    healthy = s.healthy;
    magic = s.magic;
    counted = s.counted;
  };
}

-- On a sound pager, `Flush` succeeds. Afterwards every buffered page that was dirty stands at its
-- place on the file, every other page that was wholly on the file is unchanged there, and no page
-- is dirty; the header, the buffer and every page below the page count, as a reader sees it, are
-- the same, and the pager is sound.
pub flush_lem :
    {p : Pager}
    → IsSound p
    → (q : Pager) × (flush p ≡ (ok tt, q)) × Flushed p q × Dumped p.dirty p q × (q.dirty ≡ [])
unfolding flush clean
flush_lem {p} s =
    let (q, e, f, d) = flush_pages_lem p.dirty p s in
    (
      clean q,
      ground (arith, e, sync_healthy q.file f.sound.healthy),
      Flushed-trans f (clean-Flushed q f.sound),
      record { reached = d.reached; untouched = d.untouched },
      refl,
    )
