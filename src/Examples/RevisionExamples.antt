-- ===== src/Examples/RevisionExamples.antt =====
-- crates/wayjournal-core/src/revision.rs: two entries in either order.
use wayjournal_build_attesta.Prelude.{true, ◌≡◌, [], ◌∷◌, ◌+◌}
use wayjournal_build_attesta.Ids.{Text, Digest, ascii}
use wayjournal_build_attesta.Revision.{RevisionEntry, compute_store_revision}
use wayjournal_build_attesta.Revision.Order.{exchange, compute_store_revision-Reordered}
use wayjournal_build_attesta.Examples.UuidExample.{hyphenated_crate}

abbrev pub sum : Text → Digest
sum [] = 0
sum (b ∷ t) = b + sum t

abbrev first : RevisionEntry
first = record { path = ascii "a"; bytes = 1 ∷ []; regular = true }

abbrev second : RevisionEntry
second = record { path = ascii "b"; bytes = 2 ∷ []; regular = true }

compute_store_revision-Reordered_example :
    compute_store_revision hyphenated_crate sum (first ∷ second ∷ [])
    ≡ compute_store_revision hyphenated_crate sum (second ∷ first ∷ [])
compute_store_revision-Reordered_example =
    compute_store_revision-Reordered hyphenated_crate sum (first ∷ second ∷ [])
      (second ∷ first ∷ []) exchange
