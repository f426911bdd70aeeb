-- ===== src/Hasher.antt =====
-- crates/perch-zk-primitives/src/lib.rs: the formulas of the recovery circuit over a Poseidon2
-- sponge, which is a parameter: a function from a list of field elements to one.
use perch.Common.{ℕ, Bytes32, List, [], ◌∷◌, get_or}
use perch.Encode.{split_hi_lo}

-- `ZERO_HASHES`: the roots of the empty subtrees by depth.
abbrev pub zero_hashes : List Bytes32
zero_hashes =
    0 ∷ 0xb63a53787021a4a962a452c2921b3663aff1ffd8d5510540f8e659e782956f1
    ∷ 0xe34ac2c09f45a503d2908bcb12f1cbae5fa4065759c88d501c097506a8b2290
    ∷ 0x21f9172d72fdcdafc312eee05cf5092980dda821da5b760a9fb8dbdf607c8a20
    ∷ 0x2373ea368857ec7af97e7b470d705848e2bf93ed7bef142a490f2119bcf82d8e
    ∷ 0x120157cfaaa49ce3da30f8b47879114977c24b266d58b0ac18b325d878aafddf
    ∷ 0x1c28fe1059ae0237b72334700697bdf465e03df03986fe05200cadeda66bd76
    ∷ 0x2d78ed82f93b61ba718b17c2dfe5b52375b4d37cbbed6f1fc98b47614b0cf21b
    ∷ 0x67243231eddf4222f3911defbba7705aff06ed45960b27f6f91319196ef97e1
    ∷ 0x1849b85f3c693693e732dfc4577217acc18295193bede09ce8b97ad910310972
    ∷ 0x2a775ea761d20435b31fa2c33ff07663e24542ffb9e7b293dfce3042eb104686
    ∷ 0xf320b0703439a8114f81593de99cd0b8f3b9bf854601abb5b2ea0e8a3dda4a7
    ∷ 0xd07f6e7a8a0e9199d6d92801fff867002ff5b4808962f9da2ba5ce1bdd26a73
    ∷ 0x1c4954081e324939350febc2b918a293ebcdaead01be95ec02fcbe8d2c1635d1
    ∷ 0x197f2171ef99c2d053ee1fb5ff5ab288d56b9b41b4716c9214a4d97facc4c4a
    ∷ 0x2b9cdd484c5ba1e4d6efcc3f18734b5ac4c4a0b9102e2aeb48521a661d3feee9
    ∷ 0x14f44d672eb357739e42463497f9fdac46623af863eea4d947ca00a497dcdeb3
    ∷ 0x71d7627ae3b2eabda8a810227bf04206370ac78dbf6c372380182dbd3711fe3
    ∷ 0x2fdc08d9fe075ac58cb8c00f98697861a13b3ab6f9d41a4e768f75e477475bf5
    ∷ 0x20165fe405652104dceaeeca92950aa5adc571b8cafe192878cba58ff1be49c5
    ∷ 0x1c8c3ca0b3a3d75850fcd4dc7bf1e3445cd0cfff3ca510630fd90b47e8a24755
    ∷ 0x1f0c1a8fb16b0d2ac9a146d7ae20d8d179695a92a79ed66fc45d9da4532459b3
    ∷ 0x38146ec5a2573e1c30d2fb32c66c8440f426fbd108082df41c7bebd1d521c30
    ∷ 0x17d3d12b17fe762de4b835b2180b012e808816a7f2ff69ecb9d65188235d8fd4
    ∷ 0xe1a6b7d63a6e5a9e54e8f391dd4e9d49cdfedcbc87f02cd34d4641d2eb30491
    ∷ 0x9244eec34977ff795fc41036996ce974136377f521ac8eb9e04642d204783d2
    ∷ 0x1646d6f544ec36df9dc41f778a7ef1690a53c730b501471b6acd202194a7e8e9
    ∷ 0x64769603ba3f6c41f664d266ecb9a3a0f6567cd3e48b40f34d4894ee4c361b3
    ∷ 0x1595bb3cd19f84619dc2e368175a88d8627a7439eda9397202cdb1167531fd3f
    ∷ 0x2a529be462b81ca30265b558763b1498289c9d88277ab14f0838cb1fce4b472c
    ∷ 0xc08da612363088ad0bbc78abd233e8ace4c05a56fdabdd5e5e9b05e428bdaee
    ∷ 0x14748d0241710ef47f54b931ac5a58082b1d56b0f0c30d55fb71a6e8c9a6be14
    ∷ 0xb59baa35b9dc267744f0ccb4e3b0255c1fc512460d91130c6bc19fb2668568d ∷ []

-- `zero`: an index past the table, which would panic, reads as 0.
unfoldable pub zero_hash : ℕ → Bytes32
zero_hash level = get_or zero_hashes level 0

-- `DOM_BIND`.
abbrev pub dom_bind : Bytes32
dom_bind = 0x20ae6172af8bed19c921e91e21641198661035616a6a4d733346853501fd07c5

-- `Poseidon2Sponge::compute_hash`.
abbrev pub Sponge : Type 0
Sponge = List Bytes32 → Bytes32

-- `Hasher::node`.
unfoldable pub node : Sponge → Bytes32 → Bytes32 → Bytes32
node sponge left right = sponge (left ∷ right ∷ [])

-- `Hasher::leaf`.
unfoldable pub leaf : Sponge → Bytes32 → Bytes32 → Bytes32 → Bytes32
leaf sponge account_id enrollment_id inner =
    let (a_hi, a_lo) = split_hi_lo account_id in
    let (n_hi, n_lo) = split_hi_lo enrollment_id in
    sponge (dom_bind ∷ a_hi ∷ a_lo ∷ n_hi ∷ n_lo ∷ inner ∷ [])

-- `DOM_AUTH`.
abbrev pub dom_auth : Bytes32
dom_auth = 0x4e4c99c7477379c7e47c9380170e3fb1e7c565afe67dd56216df99861f1fb3c

-- `ZkStatementFields`.
pub record ZkStatementFields : Type 0 where
  pub account_hi : Bytes32
  pub account_lo : Bytes32
  pub enrollment_hi : Bytes32
  pub enrollment_lo : Bytes32
  pub digest_hi : Bytes32
  pub digest_lo : Bytes32

-- `ZkStatementFields::auth_preimage`.
unfoldable pub auth_preimage : ZkStatementFields → List Bytes32
auth_preimage f =
    dom_auth ∷ f.account_hi ∷ f.account_lo ∷ f.enrollment_hi ∷ f.enrollment_lo ∷ f.digest_hi
    ∷ f.digest_lo ∷ []

-- `Hasher::statement_hash`.
unfoldable pub statement_hash : Sponge → ZkStatementFields → Bytes32
statement_hash sponge fields = sponge (auth_preimage fields)
