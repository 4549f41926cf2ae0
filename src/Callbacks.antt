-- ===== src/Callbacks.antt =====
-- src/lib/callbacks: what happens when a write finishes.
pub mod MirrorToPeer
pub mod ChainWrite
pub mod NotifyWriteComplete
pub mod ModifyPeer
pub mod Watches
pub mod ComputedOptions
