-- ===== src/Client.antt =====
-- FileRelay_.server/Client/src: the program that cuts files into chunks and sends them.
pub mod Chunker
pub mod Queue
pub mod Sender
