-- ===== src/Dict/Table/Del.antt =====
-- `dict_del` on a valid dictionary.
use lz_lib.Base.{ℕ, ◌%◌, List, set, dec32}
use lz_lib.Hash.{super_fast_hash}
use lz_lib.Dict.Store.{Heap}
use lz_lib.Dict.Table.{Dict, Node, erase_id}
use lz_lib.Dict.Table.Nodes.{erase_key}
use lz_lib.Dict.Table.Chains.{homed}
use lz_lib.Dict.Table.Valid.{IsValid, Owns}

module _ {h : Heap} {d : Dict} (key : List ℕ) (valid : IsValid d)
    (owns : Owns h d.members_list) where
  -- The dictionary with the pair of the key taken out of chain and list.
  unlinked : Node → Dict
  unlinked n = record d {
    members =
        set d.members (super_fast_hash key % d.hash_size)
          (erase_id n.id (homed d.hash_size (super_fast_hash key % d.hash_size) d.members_list));
    members_list = erase_key key d.members_list;
    count = dec32 d.count;
  }
