-- ===== src/Paging.antt =====
-- src/common/paging.c: the paging queues of the common control channel. `Types` holds the state,
-- `Rest` and `Message` the encoding of a paging request, `Queue` the operations on the queues,
-- `Time` the choice of the group and `Gen` the scheduler that picks what is sent; the other
-- children hold the proofs.
pub mod Types
pub mod Rest
pub mod Message
pub mod Time
pub mod Queue
pub mod Etws
pub mod Gen
pub mod Counting
pub mod Invariant
pub mod Service
pub mod Sizes
pub mod Delivery
pub mod NoLoss
pub mod Duplicates
pub mod Admission
pub mod Pages
pub mod Sample
pub mod Sorting
mod Tests
