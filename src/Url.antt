-- ===== src/Url.antt =====
-- src/URLStringUtil.cpp: the four URL parsers. A reference parameter is a field of a record that the
-- call receives and returns beside its Boolean result, so that what a failed call leaves in it is
-- kept. A position that `find` returns lies within the text, so `substr` does not throw.
pub mod Components
pub mod Http
pub mod Sftp
pub mod Ipfs
mod Tests
