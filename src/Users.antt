-- ===== src/Users.antt =====
-- The programs of linux-api-kerrisk that read the user and group databases.
pub mod InitGroups
pub mod Passwd
