-- ===== src/Env.antt =====
-- The files of slash/include/env.h (a submodule): what the binlog's writer and reader ask of them.
use pika.Prelude.{ℕ, ◌≤◌, ◌<◌, ◌≡◌, List, [], ◌++◌, length, take, drop}
use pika.Status.{Status, ok, end_file}

-- What `SequentialFile::Read` hands back: its status, the slice, and the file afterwards.
pub record ReadResult (Reader : Type 0) : Type 0 where
  pub status : Status
  pub slice : List ℕ
  pub next : Reader

-- `File` is a `WritableFile`, `Reader` a `SequentialFile` at its position. `contents` and `unread`
-- say what the operations are about; the program does not call them.
pub record Env : Type 1 where
  pub File : Type 0
  pub Reader : Type 0
  pub new_writable_file : File
  pub append : File → List ℕ → Status × File
  pub flush : File → Status × File
  pub filesize : File → ℕ
  pub new_sequential_file : File → Reader
  pub read : Reader → ℕ → ReadResult Reader
  pub skip : Reader → ℕ → Reader
  pub contents : File → List ℕ
  pub unread : Reader → List ℕ

-- The documented behaviour. A write may fail, and then nothing is said of the file; a read of bytes
-- that are there succeeds.
pub record EnvLaws (env : Env) : Type 1 where
  pub contents_new : env.contents env.new_writable_file ≡ []
  pub filesize-contents : (f : env.File) → env.filesize f ≡ length (env.contents f)
  pub contents-append :
      (f : env.File) (s : List ℕ)
      → (env.append f s).0 ≡ ok
      → env.contents (env.append f s).1 ≡ env.contents f ++ s
  pub contents-flush : (f : env.File) → env.contents (env.flush f).1 ≡ env.contents f
  pub unread_new : (f : env.File) → env.unread (env.new_sequential_file f) ≡ env.contents f
  pub read_status :
      (r : env.Reader) (n : ℕ) → n ≤ length (env.unread r) → (env.read r n).status ≡ ok
  pub read_short :
      (r : env.Reader) (n : ℕ) → length (env.unread r) < n → (env.read r n).status ≡ end_file
  pub read_slice : (r : env.Reader) (n : ℕ) → (env.read r n).slice ≡ take n (env.unread r)
  pub read_next : (r : env.Reader) (n : ℕ) → env.unread (env.read r n).next ≡ drop n (env.unread r)
  pub unread-skip : (r : env.Reader) (n : ℕ) → env.unread (env.skip r n) ≡ drop n (env.unread r)
