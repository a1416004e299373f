-- ===== src/StoragePolicy.antt =====
-- Storage keys (app/domain/documents/storage_policy.py).
use cortex_rag.Base.{ℕ, ◌++◌, Text, text}
use cortex_rag.Base.Str.{lstrip_dots, padded}
use cortex_rag.Job.{Uuid, Time}
use cortex_rag.World.{Env}

module _ (env : Env) where
  unfoldable pub build_document_version_key : Text → Uuid → Uuid → Text → Time → Text
  unfolding lstrip_dots padded
  build_document_version_key tenant_id document_id version_id extension uploaded_at =
      let ext = env.lower (lstrip_dots extension) in
      text "documents/"
      ++ (tenant_id
          ++ (text "/"
              ++ (padded 4 (env.year uploaded_at)
                  ++ (text "/"
                      ++ (padded 2 (env.month uploaded_at)
                          ++ (text "/"
                              ++ (env.uuid_str document_id
                                  ++ (text "/"
                                      ++ (env.uuid_str version_id ++ (text "." ++ ext))))))))))

  unfoldable pub build_page_image_key : Uuid → ℕ → Text → Text
  unfolding lstrip_dots padded
  build_page_image_key document_id page_number image_format =
      let fmt = env.lower (lstrip_dots image_format) in
      text "pages/"
      ++ (env.uuid_str document_id
          ++ (text "/page_" ++ (padded 3 page_number ++ (text "." ++ fmt))))
