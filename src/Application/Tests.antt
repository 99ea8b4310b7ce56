-- ===== src/Application/Tests.antt =====
-- The program at a concrete command line.
use in_memory_object_storage.Common.{◌≡◌, ◌%◌, ◌^◌, refl, true, [], ◌∷◌, some, arith, ok}
use in_memory_object_storage.Common.Text.{codes}
use in_memory_object_storage.Common.Decimal.{to_string}
use in_memory_object_storage.UserDatabase.{verify}
use in_memory_object_storage.Server.{ObjectStorage}
use in_memory_object_storage.Server.Serving.{IsServing}
use in_memory_object_storage.Server.Tests.{all_well}
use in_memory_object_storage.Application.{main}
use in_memory_object_storage.Application.Starting.{range_text, main-IsServing}

main-IsServing_example :
    (o : ObjectStorage) × (main all_well (
        codes "object_storage"
        ∷ codes "127.0.0.1"
        ∷ to_string 1670
        ∷ to_string 4
        ∷ codes "auth"
        ∷ range_text 1000 2000
        ∷ [])
      ≡ ok (some o))
    × IsServing o
    × (o.workers ≡ 4)
    × (o.port ≡ 1670 % 2 ^ 16)
    × (o.ftp_port_range ≡ record { min_port = 1000 % 2 ^ 16; max_port = 2000 % 2 ^ 16 })
    × (verify o.users (record { username = codes "Nord"; password = codes "VPN" }) ≡ true)
main-IsServing_example =
    main-IsServing all_well (codes "object_storage") (codes "127.0.0.1") (codes "auth") 1670 4 1000
      2000 (refl, refl, refl, refl, refl) (omega arith) (omega arith) (omega arith) (omega arith)
      (omega arith) (omega arith)
