-- ===== src/Agch.antt =====
-- The access grant queue of src/common/bts.c and the block of the common control channel that is
-- filled from it, from the paging queues of Paging or from the notifications of Notification.
pub mod Reject
pub mod Queue
pub mod Ccch
pub mod Merging
pub mod Limits
mod Tests
