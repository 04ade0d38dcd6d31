-- ===== src/Vfs.antt =====
-- kernel/vfs.c and include/trollos/vfs.h: the virtual file system. `Types` has its tables, `Path`
-- the resolution of names, `Files` the operations on open files, `Mounts` the registration of file
-- systems and the mounting of devices.
pub mod Types
pub mod Path
pub mod Files
pub mod Mounts
pub mod Valid
pub mod Keep
pub mod Resolve
pub mod Entry
pub mod Open
pub mod Close
pub mod Read
pub mod Register
pub mod Directory
pub mod Mounting
