-- ===== src/Panel/Create.antt =====
-- The handlers that add sources: one, a batch, a discovered one, an imported file.
use urwhaturead.Prelude.{
  Bool, true, false, not, Option, none, some, List, [], ◌∷◌, ◌++◌, map, length, if◌then◌else◌, ltb,
  ◌==◌, text_eq, distinct_from, filter, Text, codes, trim, is_empty,
}
use urwhaturead.Prelude.Decimal.{decimal}
use urwhaturead.Stream.{is_nil}
use urwhaturead.Task.Poller.{NoticeKind}
use urwhaturead.Task.Summary.{Reply, threw, answered}
use urwhaturead.Sources.{parse_source_tag_input}
use urwhaturead.Feed.{split_from}
use urwhaturead.Panel.{
  Panel, Params, Service, NewSource, create_source, discover_sources, export_sources,
  import_sources, DiscoverSourceCandidate, ImportMeta,
}
use urwhaturead.Panel.Action.{
  Action, ◌>>=◌, ◌>>◌, done, modify, request, try_catch, finally, set_notice, reload_sources,
  reload_feed, reload_status,
}

-- `tags.length > 0 ? tags : undefined`, and `text ? text : undefined`
abbrev some_tags : List Text → Option (List Text)
some_tags [] = none
some_tags (tag ∷ tags) = some (tag ∷ tags)

abbrev some_text : Text → Option Text
some_text [] = none
some_text (c ∷ s) = some (c ∷ s)

-- The lines of a text, trimmed, without empty ones and without repetitions.
unfoldable pub parse_rss_lines : Text → List Text
parse_rss_lines input =
    distinct_from [] (filter (λ line. not (is_empty line)) (map trim (split_from 10 [] input)))

-- What became of the creation of one URL.
abbrev pub Creation : Type 0
Creation = Text × Reply (Unit {0})

abbrev pub created_urls : List Creation → List Text
created_urls [] = []
created_urls ((url, answered a) ∷ rs) = url ∷ created_urls rs
created_urls ((url, threw message) ∷ rs) = created_urls rs

abbrev pub failed_urls : List Creation → List (Text × Text)
failed_urls [] = []
failed_urls ((url, answered a) ∷ rs) = failed_urls rs
failed_urls ((url, threw message) ∷ rs) = (url, message) ∷ failed_urls rs

abbrev pub mark_existing : Text → Text → DiscoverSourceCandidate → DiscoverSourceCandidate
mark_existing rss_url name item =
    if item.rss_url == rss_url
    then record item { existing = true; source_name = some name }
    else item

abbrev discovered : List DiscoverSourceCandidate → Text
discovered found =
    if ltb 0 (length found)
    then codes "发现 " ++ (decimal (length found) ++ codes " 个可用 RSS。")
    else codes "没有发现可用 RSS。"

abbrev pub batch_source : List Text → Text → NewSource
batch_source tags url = record { name = none; rss_url = url; tags = some_tags tags }

abbrev pub batch_text : List Creation → Text
batch_text rs =
    codes "批量添加完成：成功 "
    ++ (decimal (length (created_urls rs)) ++ (codes "，失败 " ++ decimal (length (failed_urls rs))))

abbrev reload_if : Bool → Action (Unit {0})
reload_if b = if b then (reload_sources >> reload_status) else done

abbrev suggested : Option Text → Option (List Text)
suggested none = none
suggested (some tag) = if is_empty tag then none else some (tag ∷ [])

abbrev candidate_source : DiscoverSourceCandidate → NewSource
candidate_source c = record {
  name = some c.name;
  rss_url = c.rss_url;
  tags = suggested c.suggested_tag;
}

abbrev import_text : ImportMeta → Text
import_text r =
    codes "导入完成：新增 "
    ++ (decimal r.created
        ++ (codes "，更新 "
            ++ (decimal r.updated
                ++ (codes "，跳过 " ++ (decimal r.skipped ++ (codes "，失败 " ++ decimal r.failed))))))

module _ (service : Service) (params : Params) where
  open service use {host, create, discover, exported, imported}

  abbrev new_source : NewSource
  new_source = record {
    name = some_text (trim params.new_source_name);
    rss_url = trim params.new_source_url;
    tags = some_tags (parse_source_tag_input host params.new_source_tags);
  }

  unfoldable pub on_create_source : Action (Unit {0})
  on_create_source =
      let run : Action (Unit {0}) =
        finally
          (try_catch
            (do
              modify (λ s. record s { creating_source = true })
              request (create_source new_source) (create new_source)
              modify (λ s. record s {
                new_source_name = [];
                new_source_url = [];
                new_source_tags = [];
              })
              set_notice NoticeKind.info (codes "来源创建成功。")
              reload_sources
              reload_status)
            (λ message. set_notice NoticeKind.error (codes "创建来源失败: " ++ message)))
          (λ s. record s { creating_source = false }) in
      if is_empty (trim params.new_source_url)
      then set_notice NoticeKind.error (codes "请填写 RSS URL。")
      else run

  unfoldable pub on_discover_sources : Action (Unit {0})
  on_discover_sources =
      let input = trim params.discover_url in
      let run : Action (Unit {0}) =
        finally
          (try_catch
            (do
              modify (λ s. record s { discovering_sources = true })
              found ← request (discover_sources input) (discover input)
              modify (λ s. record s { discovered_sources = found })
              set_notice NoticeKind.info (discovered found))
            (λ message. set_notice NoticeKind.error (codes "自动发现失败: " ++ message)))
          (λ s. record s { discovering_sources = false }) in
      if is_empty input then set_notice NoticeKind.error (codes "请填写网站地址。") else run

  abbrev pub create_one : List Text → Text → Panel → Creation × Panel
  create_one tags url s = (
    (url, create (batch_source tags url)),
    record s { calls = create_source (batch_source tags url) ∷ s.calls },
  )

  -- `Promise.all(urls.map(…))`
  unfoldable pub create_all : List Text → List Text → Panel → List Creation × Panel
  create_all tags [] s = ([], s)
  create_all tags (url ∷ urls) s =
      let first = create_one tags url s in
      let rest = create_all tags urls first.1 in (first.0 ∷ rest.0, rest.1)

  unfoldable pub on_batch_create_sources : Action (Unit {0})
  on_batch_create_sources =
      let urls = parse_rss_lines params.batch_source_urls in
      let tags = parse_source_tag_input host params.batch_source_tags in
      let run : Action (Unit {0}) = (do
        modify (λ s. record s { batch_creating_sources = true; batch_create_result = none })
        results ← λ s. (answered (create_all tags urls s).0, (create_all tags urls s).1)
        modify (λ s. record s {
          batch_create_result =
              some (record { success = created_urls results; failed = failed_urls results });
          batch_creating_sources = false;
        })
        reload_if (ltb 0 (length (created_urls results)))
        set_notice
            (if ltb 0 (length (failed_urls results)) then NoticeKind.error else NoticeKind.info)
            (batch_text results)) in
      if is_nil urls then set_notice NoticeKind.error (codes "请至少输入一个 RSS URL。") else run

  unfoldable pub on_add_discovered_source : DiscoverSourceCandidate → Action (Unit {0})
  on_add_discovered_source c =
      let run : Action (Unit {0}) =
        try_catch
          (do
            request (create_source (candidate_source c)) (create (candidate_source c))
            modify (λ s. record s {
              discovered_sources = map (mark_existing c.rss_url c.name) s.discovered_sources;
            })
            set_notice NoticeKind.info (codes "已添加来源：" ++ c.name)
            reload_sources
            reload_status)
          (λ message. set_notice NoticeKind.error (codes "添加来源失败: " ++ message)) in
      if c.existing then done else run

  -- The download itself is the browser's: the answer is the count of exported sources.
  unfoldable pub on_export_sources : Action (Unit {0})
  on_export_sources =
      finally
        (try_catch
          (do
            modify (λ s. record s { exporting_sources = true })
            count ← request export_sources exported
            set_notice NoticeKind.info (codes "导出完成：" ++ (decimal count ++ codes " 个来源。")))
          (λ message. set_notice NoticeKind.error (codes "导出来源失败: " ++ message)))
        (λ s. record s { exporting_sources = false })

  -- `is_json` says whether the text of the file is JSON.
  unfoldable pub on_import_sources_file : Bool → Action (Unit {0})
  on_import_sources_file is_json =
      let run : Action (Unit {0}) = (do
        r ← request import_sources imported
        reload_sources
        reload_feed none
        reload_status
        set_notice (if ltb 0 r.failed then NoticeKind.error else NoticeKind.info)
            (import_text r)) in
      finally
        (try_catch
          (modify (λ s. record s { importing_sources = true })
            >> (if is_json then run else set_notice NoticeKind.error (codes "导入失败: 文件不是有效 JSON。")))
          (λ message. set_notice NoticeKind.error (codes "导入来源失败: " ++ message)))
        (λ s. record s { importing_sources = false })
