-- ===== src/SecretFile.antt =====
-- crates/hub/src/secretfile.rs: the files that hold the hub's secrets, on a unix file system. Files
-- has the steps on files, Secret the reading and writing; Whole is a proof.
mod Files
mod Secret
mod Whole
mod Examples
