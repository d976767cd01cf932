-- ===== src/Slots.antt =====
-- src/stores/notification_slot_store.py, with the keys of src/notifications/delivery_slots.py: the
-- index of the clients that chose a local half hour of their time zone.
pub mod Keys
pub mod Sync
pub mod Due
pub mod Served
pub mod Exact
pub mod Interrupted
pub mod Settled
mod Tests
