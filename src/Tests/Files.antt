-- ===== src/Tests/Files.antt =====
-- Files that are held in memory and never fail, and integers that are coded the lowest byte first.
use pika.Prelude.{
  digits_loop_one, ℕ, refl, List, [], ◌++◌, length, ltb, if◌then◌else◌, take, drop, arith,
  to_string,
}
use pika.Env.{Env, EnvLaws}
use pika.LittleEndian.{to_bytes, from_bytes, from_bytes-to_bytes, length-to_bytes}
use pika.Slash.{Slash, SlashLaws}
use pika.Status.{ok, end_file}

abbrev pub plain : Env
plain = record {
  File = List ℕ;
  Reader = List ℕ;
  new_writable_file = [];
  append = λ f s. (ok, f ++ s);
  flush = λ f. (ok, f);
  filesize = λ f. length f;
  new_sequential_file = λ f. f;
  read = λ r n. record {
    status = if ltb (length r) n then end_file else ok;
    slice = take n r;
    next = drop n r;
  };
  skip = λ r n. drop n r;
  contents = λ f. f;
  unread = λ r. r;
}

pub plain-EnvLaws : EnvLaws plain
plain-EnvLaws = record {
  contents_new = refl;
  filesize-contents = λ f. refl;
  contents-append = λ f s h. refl;
  contents-flush = λ f. refl;
  unread_new = λ f. refl;
  read_status = λ r n h. ground arith;
  read_short = λ r n h. ground arith;
  read_slice = λ r n. refl;
  read_next = λ r n. refl;
  unread-skip = λ r n. refl;
}

abbrev pub coding : Slash
coding = record {
  put_fixed16 = λ n. to_bytes 2 n;
  put_fixed32 = λ n. to_bytes 4 n;
  put_fixed64 = λ n. to_bytes 8 n;
  get_fixed16 = λ s. from_bytes 2 s;
  get_fixed32 = λ s. from_bytes 4 s;
  get_fixed64 = λ s. from_bytes 8 s;
  ll2string = λ n. to_string n;
}

pub coding-SlashLaws : SlashLaws coding
unfolding to_string
coding-SlashLaws = record {
  length16 = λ n. length-to_bytes 2 n;
  length32 = λ n. length-to_bytes 4 n;
  length64 = λ n. length-to_bytes 8 n;
  get_put16 = λ n rest h. from_bytes-to_bytes 2 n rest h;
  get_put32 = λ n rest h. from_bytes-to_bytes 4 n rest h;
  get_put64 = λ n rest h. from_bytes-to_bytes 8 n rest h;
  digit = λ n h. digits_loop_one 19 n h;
}
