-- ===== src/Failure/Tests.antt =====
-- The theorems of the keys at concrete keys.
use dbha.Prelude.{ℕ, ◌≡◌, refl, arith, Text, codes, Lacks}
use dbha.Failure.Keys.{instance_window_key-injective}

abbrev cloud : ℕ
cloud = 3

abbrev port : ℕ
port = 3306

abbrev cluster : ℕ
cluster = 12

abbrev address : Text
address = codes "10.0.0.1"

abbrev mysql : Text
mysql = codes "mysql"

mysql-Lacks : Lacks b':' mysql
mysql-Lacks = (omega arith, (omega arith, (omega arith, (omega arith, (omega arith, tt)))))

instance_window_key-injective_example :
    (cloud ≡ cloud) × (address ≡ address) × (port ≡ port) × (mysql ≡ mysql)
instance_window_key-injective_example =
    instance_window_key-injective cloud cloud address address port port mysql mysql mysql-Lacks
      mysql-Lacks refl
