-- ===== src/Db/Tests.antt =====
-- Runs of the database functions, and the theorems about them at concrete inputs.
use Prim.Native.String.{String}
use Prim.Native.Char.{code}
use unp_and_apue3e.Prelude.{◌≡◌, refl, true, Option, none, some, [], ◌∷◌}
use unp_and_apue3e.Text.{
  Bytes, c_str, str_eq, split_at_char, scan_digits, skip_space, signed, atol, digits, decimal,
  pad_left,
}
use unp_and_apue3e.File.{File, lseek, read, write, overwrite}
use unp_and_apue3e.Db.State.{Limits, Outcome, ok, fatal, out_of_fuel, M, ◌>>◌, lock, unlock}
use unp_and_apue3e.Db.Record.{
  seek, get_bytes, put_bytes, readptr, writeptr, readdat, writedat, set_fields, parse_fields,
  read_body, readidx, record_text, writeidx,
}
use unp_and_apue3e.Db.Ops.{
  hash_from, hash, find_loop, find_and_lock, fetch, dodelete, delete, free_loop, unlink_free,
  findfree, link_front, append_record, reuse_record, store_new, store_over, store_found, db_store,
  Stored, store, rewind, scan_loop, nextrec,
}
use unp_and_apue3e.Db.Open.{alloc, repeat, empty_index, init_index, prepare}

abbrev codes : String → Bytes
codes String.[] = []
codes (String.◌∷◌ c s) = code c ∷ codes s

abbrev limits : Limits
limits = record { idxlen_min = 6; idxlen_max = 1024; datlen_min = 2; datlen_max = 1024 }

abbrev empty_file : File
empty_file = record { bytes = []; offset = 0 }

abbrev result : {A : Type 0} → Outcome A → Option A
result (ok a s) = some a
result (fatal e s) = none
result out_of_fuel = none

abbrev on_new : {A : Type 0} → M A → Option A
on_new m =
    result ((prepare (record { creat = true; trunc = true }) >> m) (alloc empty_file empty_file))

abbrev put : String → String → M Stored
put k v = db_store limits (codes k) (codes v) store

session : Option (Option Bytes)
unfolding alloc repeat empty_index init_index prepare lock unlock seek get_bytes put_bytes readptr
    writeptr readdat writedat set_fields parse_fields read_body readidx record_text writeidx
    hash_from hash find_loop find_and_lock fetch dodelete delete free_loop unlink_free findfree
    link_front append_record reuse_record store_new store_over store_found db_store rewind scan_loop
    nextrec lseek read write overwrite c_str str_eq split_at_char scan_digits skip_space signed atol
    digits decimal pad_left
session = on_new do
  put "Alpha" "data1"
  put "beta" "Data for beta"
  put "gamma" "record3"
  put "beta" "changed"
  delete limits (codes "gamma")
  put "delta" "record4"
  fetch limits (codes "beta")

session_lem : session ≡ some (some (codes "changed"))
unfolding session
session_lem = refl

scan : Option (Option (Bytes × Bytes))
unfolding alloc repeat empty_index init_index prepare lock unlock seek get_bytes put_bytes readptr
    writeptr readdat writedat set_fields parse_fields read_body readidx record_text writeidx
    hash_from hash find_loop find_and_lock fetch dodelete delete free_loop unlink_free findfree
    link_front append_record reuse_record store_new store_over store_found db_store rewind scan_loop
    nextrec lseek read write overwrite c_str str_eq split_at_char scan_digits skip_space signed atol
    digits decimal pad_left
scan =
    on_new do
      put "gamma" "record3"
      put "beta" "x"
      delete limits (codes "gamma")
      rewind
      nextrec limits

scan_lem : scan ≡ some (some (codes "beta", codes "x"))
unfolding scan
scan_lem = refl
