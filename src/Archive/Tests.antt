-- ===== src/Archive/Tests.antt =====
-- Runs of the extraction of src/core/archive.
use subx_core.Prelude.{
  ℕ, ◌-◌, ◌^◌, ◌≡◌, refl, false, List, [], ◌∷◌, Option, some, none, ◌=ᵗ◌, codes, arith, ok, err,
}
use subx_core.Archive.{
  Component, normal, parent_dir, regular, Entry, Destination, too_large, extract,
}
use subx_core.Archive.Limits.{HasSizes, file_sizes}
use subx_core.Archive.Bounded.{IsBounded, extract-IsBounded}

abbrev anywhere : Destination
anywhere = record {
  dest_dir = normal (codes "out") ∷ [];
  canonical_path = λ round p. none;
  fails = λ p. false;
}

-- Where `link` below the directory leads out of it.
abbrev linked : Destination
linked = record {
  dest_dir = normal (codes "out") ∷ [];
  canonical_path = λ round p. elim p [
    | normal a ∷ normal b ∷ [] ↦ some (normal (codes "etc") ∷ [])
    | q ↦ some q
  ];
  fails = λ p. false;
}

abbrev entry : List Component → ℕ → Option Entry
entry components size = some (record {
  kind = regular;
  path = record { has_root = false; components = components };
  size = size;
})

abbrev two : List (Option Entry)
two =
    entry (normal (codes "a.srt") ∷ []) 100
    ∷ entry (parent_dir ∷ normal (codes "b.srt") ∷ []) 200
    ∷ []

two_extracted :
    extract anywhere two ≡ ok ((normal (codes "out") ∷ normal (codes "a.srt") ∷ []) ∷ [])
unfolding extract
two_extracted = refl

link_skipped : extract linked (entry (normal (codes "link") ∷ []) 5 ∷ []) ≡ ok []
unfolding extract ◌=ᵗ◌
link_skipped = refl

too_large_refused :
    extract anywhere (entry (normal (codes "a.srt") ∷ []) (2 ^ 31) ∷ []) ≡ err too_large
unfolding extract
too_large_refused = refl

-- A size of 2^64 - 1 after a file of one byte makes the total wrap to 0, and passes.
wrapped_total :
    extract anywhere
      (entry (normal (codes "a") ∷ []) 1 ∷ entry (normal (codes "b") ∷ []) (2 ^ 64 - 1) ∷ [])
    ≡ ok (
        (normal (codes "out") ∷ normal (codes "a") ∷ [])
        ∷ (normal (codes "out") ∷ normal (codes "b") ∷ [])
        ∷ [])
unfolding extract
wrapped_total = refl

extract-IsBounded_example :
    IsBounded anywhere (file_sizes two) ((normal (codes "out") ∷ normal (codes "a.srt") ∷ []) ∷ [])
unfolding HasSizes extract
extract-IsBounded_example =
    extract-IsBounded anywhere two ((normal (codes "out") ∷ normal (codes "a.srt") ∷ []) ∷ [])
      (omega arith, (omega arith, tt)) refl
