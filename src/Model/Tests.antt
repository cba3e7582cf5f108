-- ===== src/Model/Tests.antt =====
-- internal/model at concrete hosts, with the repository's own test cases.
use lazyssh.Base.{[], ◌∷◌, codes, ◌≡◌, refl, bytes_beq}
use lazyssh.Base.Int.{pos, negsuc}
use lazyssh.Strings.{trim, trim_left, trim_right, split}
use lazyssh.Strings.Decimal.{itoa, digits}
use lazyssh.Model.Ids.{new_id, encode_to_string, hex_digit}
use lazyssh.Model.{Host, effective_port, addr, folder_segments}

abbrev pub web : Host
web = record {
  id = codes "01";
  name = codes "web";
  hostname = codes "10.0.0.1";
  port = pos 2222;
  user = codes "root";
  auth_type = codes "key";
  key_path = [];
  password = [];
  folder = codes "/prod/web/";
  tags = codes "a" ∷ [];
}

two_segments : folder_segments web ≡ codes "prod" ∷ codes "web" ∷ []
unfolding folder_segments trim trim_left trim_right split bytes_beq
two_segments = refl

address : addr web ≡ codes "10.0.0.1:2222"
unfolding addr effective_port itoa digits
address = refl

default_port : addr (record web { port = negsuc 0 }) ≡ codes "10.0.0.1:22"
unfolding addr effective_port itoa digits
default_port = refl

an_id : new_id (0 ∷ 10 ∷ 159 ∷ 255 ∷ 1 ∷ 2 ∷ 3 ∷ 64 ∷ []) ≡ codes "000a9fff01020340"
unfolding new_id encode_to_string hex_digit
an_id = refl
