-- ===== src/Inode.antt =====
-- fs/inode.c: inodes in memory.
pub mod Zones
pub mod Mapping
mod Tests
use linux.Common.{ℕ, Bool, false}

-- `struct m_inode`; the tasks that wait for it are not part of it.
pub record Inode : Type 0 where
  pub i_mode : ℕ
  pub i_uid : ℕ
  pub i_size : ℕ
  pub i_mtime : ℕ
  pub i_gid : ℕ
  pub i_nlinks : ℕ
  pub i_zone : ℕ → ℕ
  pub i_atime : ℕ
  pub i_ctime : ℕ
  pub i_dev : ℕ
  pub i_num : ℕ
  pub i_count : ℕ
  pub i_lock : Bool
  pub i_dirt : Bool
  pub i_pipe : Bool
  pub i_mount : Bool
  pub i_seek : Bool
  pub i_update : Bool

-- `memset(inode,0,sizeof(*inode))`
abbrev pub no_inode : Inode
no_inode = record {
  i_mode = 0;
  i_uid = 0;
  i_size = 0;
  i_mtime = 0;
  i_gid = 0;
  i_nlinks = 0;
  i_zone = λ n. 0;
  i_atime = 0;
  i_ctime = 0;
  i_dev = 0;
  i_num = 0;
  i_count = 0;
  i_lock = false;
  i_dirt = false;
  i_pipe = false;
  i_mount = false;
  i_seek = false;
  i_update = false;
}
