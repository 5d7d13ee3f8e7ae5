-- ===== src/IpfsSaver/Tests.antt =====
-- Publications of the IPFS saver (src/IPFSSaver.cpp), and the theorem about them.
use async_iomanager.Common.{
  ◌+◌, true, false, none, some, [], ◌∷◌, ◌++◌, codes, ◌==◌, not, ◌&&◌, ◌⊎◌, if◌then◌else◌, ◌≡◌,
  refl,
}
use async_iomanager.Io.{Files, success, op, post, made}
use async_iomanager.IpfsSaver.{
  Setting, clear_temp_dir, thrown, remove_then, create_temp_dir, write_file, publish_directory,
  remove_temp, announce_cid, report_location, publishing, published, write_files, publish,
  save_directory, save_async, on_published, step, run,
}
use async_iomanager.IpfsSaver.Balance.{created, removed, owes, kept, is_thrown, save_async_balanced}

abbrev two_files : Files
two_files = record { paths = codes "a" ∷ codes "b" ∷ []; contents = codes "one" ∷ codes "two" ∷ [] }

-- The first of the two files cannot be created.
abbrev setting : Setting
setting = record {
  bitswap = true;
  dht = true;
  save_location = true;
  temp_path = true;
  exists = true;
  removes = true;
  temp_opens = true;
  creates = λ i. not (i == 0);
  throws = false;
}

begun : save_async setting (success (some two_files)) ≡ (
  publishing,
  op clear_temp_dir
      ∷ op create_temp_dir
      ∷ op (write_file (codes "b") (codes "two"))
      ∷ op publish_directory
      ∷ [],
)
unfolding save_async save_directory publish remove_then write_files
begun = refl

ended :
    (run setting publishing (published (some (some (codes "cid"))) ∷ [])).1
    ≡ op remove_temp ∷ op announce_cid ∷ op (report_location (codes "ipfs://cid")) ∷ post tt ∷ []
unfolding run step on_published remove_then
ended = refl

-- The directory cannot be removed when Bitswap has published it.
abbrev locked : Setting
locked = record setting { removes = false }

save_async_balanced_example :
    let (s, acts) = save_async locked (success (some two_files)) in
    let (s', bs) = run locked s (published none ∷ []) in
    (made (acts ++ bs) ≡ (if owes s' == 0 then 1 else 0))
    × (created (acts ++ bs) ≡ removed (acts ++ bs) + kept s')
    × ((is_thrown s' ≡ false) ⊎ (locked.removes && locked.temp_path ≡ false))
save_async_balanced_example =
    save_async_balanced locked (success (some two_files)) (published none ∷ [])

left_behind : (run locked publishing (published none ∷ [])).0 ≡ thrown true
unfolding run step on_published remove_then
left_behind = refl
