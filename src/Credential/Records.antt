-- ===== src/Credential/Records.antt =====
-- internal/domain/credential/model.go and internal/repository/postgres/credential.go. The rows of
-- other tables that refer to a credential are given by the argument `referenced`.
use k8s_migration.Base.{
  ℕ, ◌==◌, leb, Bool, true, false, not, none, some, List, [], ◌∷◌, ◌++◌, String, find, select,
  delete, order_by, Result, ok, err, failure, not_found, conflict, require, or_fail, ◌>>=◌, ◌>>◌,
}
use k8s_migration.Security.Crypto.{Bytes}

-- The type of a credential, or a text that is none.
pub data CredentialType : Type 0 where
  kubeconfig ssh registry s3 compose_definition : CredentialType
  unknown : String → CredentialType

unfoldable pub valid_type : CredentialType → Bool
valid_type (CredentialType.unknown _) = false
valid_type _ = true

unfoldable pub type_text : CredentialType → String
type_text CredentialType.kubeconfig = "KUBECONFIG"
type_text CredentialType.ssh = "SSH"
type_text CredentialType.registry = "REGISTRY"
type_text CredentialType.s3 = "S3"
type_text CredentialType.compose_definition = "COMPOSE_DEFINITION"
type_text (CredentialType.unknown text) = text

abbrev pub is_compose : CredentialType → Bool
is_compose CredentialType.compose_definition = true
is_compose _ = false

pub record Credential : Type 0 where
  pub id : ℕ
  pub name : String
  pub type : CredentialType
  pub encrypted_payload : Bytes
  pub key_version : ℕ
  pub created_at : ℕ
  pub updated_at : ℕ

pub record Metadata : Type 0 where
  pub id : ℕ
  pub name : String
  pub type : CredentialType
  pub created_at : ℕ
  pub updated_at : ℕ

abbrev pub has_id : ℕ → Credential → Bool
has_id id c = c.id == id

-- The id is the primary key.
unfoldable pub create_credential : List Credential → Credential → Result (List Credential)
create_credential rows value = elim (find (has_id value.id) rows) [
  | some _ ↦ err conflict
  | none ↦ ok (rows ++ value ∷ [])
]

unfoldable pub get_credential : List Credential → ℕ → Result Credential
get_credential rows id = or_fail (find (has_id id) rows) not_found

-- ORDER BY created_at DESC
unfoldable pub list_credentials : List Credential → List Credential
list_credentials rows =
    order_by (λ a b. leb b.created_at a.created_at) (select (λ c. not (is_compose c.type)) rows)

unfoldable pub delete_credential : (ℕ → Bool) → List Credential → ℕ → Result (List Credential)
delete_credential referenced rows id = do
  or_fail (find (has_id id) rows) not_found >>= λ _.
      (require (not (referenced id)) (failure "delete credential") >> ok (delete (has_id id) rows))
