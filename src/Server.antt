-- ===== src/Server.antt =====
-- FileRelay_.server/Server/src: the program that receives, keeps and assembles the chunks.
pub mod Disk
pub mod Storage
pub mod Assembler
pub mod Listeners
pub mod Control
pub mod Program
