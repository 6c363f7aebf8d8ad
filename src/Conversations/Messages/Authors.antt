-- ===== src/Conversations/Messages/Authors.antt =====
-- An author that passes its own checks passes those of the storage.
use omni_crm_backend.Prelude.{ℕ, ◌≡◌, true, false, Option, arith, ok, is_some}
use omni_crm_backend.Conversations.Messages.{
  AuthorOrigin, MessageAuthor, make_author, validate_message_author_storage, author_type_of,
  is_user,
}

-- An author that can be made is stored: its fields pass the storage check, a user is named
-- exactly when the stored type is that of a user, and every other author names its source.
pub make_author_sound :
    (origin : AuthorOrigin) (source_id user_id : Option ℕ) {a : MessageAuthor}
    → make_author origin source_id user_id ≡ ok a
    → (validate_message_author_storage a ≡ true)
      × (is_some a.user_id ≡ is_user (author_type_of a.origin))
      × (is_user (author_type_of a.origin) ≡ false → is_some a.source_id ≡ true)
unfolding make_author validate_message_author_storage
make_author_sound origin source_id user_id h = ground arith
