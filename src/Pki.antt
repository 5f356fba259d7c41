-- ===== src/Pki.antt =====
-- internal/pki: what a certificate contains and how it is issued.
pub mod Types
pub mod Library
pub mod Leaf
pub mod Certified
pub mod Reads
pub mod Templates
pub mod Ca
